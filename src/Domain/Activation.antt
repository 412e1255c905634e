-- ===== src/Domain/Activation.antt =====
-- services/activity_domain.py: point_in_bounds and validate_activation.
use myota_platform.Base.Raise.{Result, ok, ◌>>=◌, ◌>>◌, guard, or_raise, err}
use myota_platform.Json.{
  Json, Fields, get, get_value, iterated, truthy, is_null, end, get_or, text, array, nil, merge,
  field, object, set_field,
}
use myota_platform.Builtins.{Builtins, iso_time}
use myota_platform.Base.{
  Bool, List, String, if◌then◌else◌, ◌∷◌, [], not, false, true, ◌||◌, ◌&&◌, member,
}
use myota_platform.Domain.Normalise.{
  DomainError, key_error, normalize_callsign, type_error, value_error,
}
use myota_platform.Outbox.Routing.{is_text, as_object}
use myota_platform.Outbox.Command.{is_nonempty_list}

-- d[k] = v for a pair; a key that is no text is never looked up, and is left out
unfoldable pub set_pair : List Json → Fields → Result DomainError Fields
set_pair (text k ∷ v ∷ []) d = ok (set_field k v d)
set_pair (array vs ∷ v ∷ []) d = err type_error
set_pair (object fs ∷ v ∷ []) d = err type_error
set_pair (k ∷ v ∷ []) d = ok d
set_pair _ d = err value_error

unfoldable pub dict_of_pairs : List Json → Fields → Result DomainError Fields
dict_of_pairs [] d = ok d
dict_of_pairs (v ∷ vs) d = do
  pair ← or_raise (iterated v) type_error
  d' ← set_pair pair d
  dict_of_pairs vs d'

-- dict(v or {})
unfoldable pub dict_of : Json → Result DomainError Fields
unfolding dict_of_pairs
dict_of (object fs) = ok fs
dict_of v =
    if truthy v
    then (or_raise (iterated v) type_error >>= λ pairs. dict_of_pairs pairs end)
    else ok end

module _ (py : Builtins) where
  -- float(d[k])
  unfoldable pub float_at : String → Fields → Result DomainError py.number_type
  float_at k fs = do v ← or_raise (get k fs) key_error; or_raise (py.float v) value_error

  -- float(bounds[low]) <= float(location[k]) <= float(bounds[high]), which stops at a False
  unfoldable pub within_bounds :
      String → String → String → Fields → Fields → Result DomainError Bool
  unfolding float_at
  within_bounds low k high bounds location = do
    least ← float_at low bounds
    value ← float_at k location
    if py.ge value least then (float_at high bounds >>= λ most. ok (py.ge most value)) else ok false

  unfoldable pub point_in_bounds : Fields → Json → Result DomainError Bool
  unfolding within_bounds
  point_in_bounds location bounds =
      if not (truthy bounds)
      then ok true
      else if is_null (get_value "latitude" location) || is_null (get_value "longitude" location)
      then ok false
      else do
        fields ← or_raise (as_object bounds) type_error
        north_south ← within_bounds "minLatitude" "latitude" "maxLatitude" fields location
        if north_south
            then within_bounds "minLongitude" "longitude" "maxLongitude" fields location
            else ok false

  -- {normalize_callsign(value) for value in values}
  unfoldable pub normalize_all : List Json → Result DomainError (List String)
  normalize_all [] = ok []
  normalize_all (v ∷ vs) = do
    callsign ← normalize_callsign py v
    callsigns ← normalize_all vs
    ok (callsign ∷ callsigns)

  -- the checks on operatorCallsign, if there is one
  unfoldable pub check_callsign : Fields → Fields → List String → Result DomainError Json
  check_callsign data_ rules authorized =
      let given = get_value "operatorCallsign" data_ in
      let status = get_value "callsignLifecycleStatus" data_ in
      if not (truthy given) then ok given else do
        callsign ← normalize_callsign py given
        guard (not (is_nonempty_list authorized) || member callsign authorized) value_error
        guard (not (is_text status "RETIRED")) value_error
        guard
            (is_null status
              || (is_text status "VERIFIED" || truthy (get_value "allowUnverifiedCallsign" rules)))
            value_error
        ok (text callsign)

  -- max_hours is None or float(max_hours) > 0
  unfoldable pub check_max_hours : Json → Result DomainError (Unit {0})
  check_max_hours v =
      if is_null v
      then ok tt
      else (or_raise (py.float v) value_error >>= λ hours.
          guard (not (py.ge (py.ratio 0 1) hours)) value_error)

  unfoldable pub validate_activation : Fields → Result DomainError Fields
  unfolding point_in_bounds normalize_all check_callsign check_max_hours dict_of
  validate_activation data_ = do
    rules ← dict_of (
        if truthy (get_value "programmeRules" data_)
        then get_value "programmeRules" data_
        else get_value "rules" data_)
    location ← dict_of (get_value "location" data_)
    guard
        (not (
          truthy (get_value "requireLocation" rules)
          && (is_null (get_value "latitude" location) || is_null (get_value "longitude" location))))
        value_error
    inside ← point_in_bounds location (get_value "entityBounds" rules)
    guard inside value_error
    values ← or_raise (iterated (get_or "authorizedCallsigns" (array nil) data_)) type_error
    authorized ← normalize_all values
    callsign ← check_callsign data_ rules authorized
    started ← or_raise (get "startedAt" data_) key_error
    started_at ← or_raise (iso_time py started) value_error
    check_max_hours (get_value "maxActivationHours" rules)
    ok (
        merge data_ (
          field "operatorCallsign" callsign (
            field "programmeRules" (object rules)
              (field "location" (object location) (field "startedAt" (text started_at) end)))))
