-- ===== src/Awards/Design.antt =====
-- services/awards.py: _print_spec and _validate_elements, the checks on a certificate's design.
use myota_platform.Builtins.{Builtins, str_of}
use myota_platform.Json.{
  Json, Fields, object, field, array, end, text, boolean, get_value, items, get_or, number,
}
use myota_platform.Base.{
  Bool, String, List, Option, ◌∷◌, str_eq, [], if◌then◌else◌, not, ◌&&◌, ◌||◌, none, some, member,
}
use myota_platform.Base.Raise.{◌>>=◌, ◌>>◌, Result, or_raise, ok, guard, err}
use myota_platform.Outbox.Routing.{as_object}
use myota_platform.Worker.Contract.{subset}
use myota_platform.Base.Text.{is_empty, strip}

pub data ServiceError : Type 0 where
  value_error key_error type_error permission_error attribute_error stop_iteration database_error :
      ServiceError

module _ (py : Builtins) where
  -- _number(v, name)
  unfoldable pub number_of : Json → Result ServiceError py.number_type
  number_of v = or_raise (py.float v) value_error

  abbrev pub zero_number : py.number_type
  zero_number = py.ratio 0 1

  -- x <= 0
  abbrev pub not_positive : py.number_type → Bool
  not_positive x = py.ge zero_number x

  -- PAGE_SIZES_MM.get(page), turned for landscape
  unfoldable pub page_size : String → String → Option (py.number_type × py.number_type)
  page_size page orientation =
      let landscape = str_eq orientation "LANDSCAPE" in
      if not (landscape || str_eq orientation "PORTRAIT")
      then none
      else if str_eq page "A4"
      then some
          (if landscape then (py.ratio 297 1, py.ratio 210 1) else (py.ratio 210 1, py.ratio 297 1))
      else if str_eq page "LETTER"
      then some (
          if landscape
          then (py.ratio 2794 10, py.ratio 2159 10)
          else (py.ratio 2159 10, py.ratio 2794 10))
      else none

  -- math.ceil(mm / 25.4 * dpi)
  unfoldable pub pixels : py.number_type → py.number_type → Result ServiceError py.number_type
  pixels mm dpi = or_raise (py.ceil (py.times (py.over mm (py.ratio 254 10)) dpi)) value_error

  abbrev pub size_fields : py.number_type → py.number_type → Json
  size_fields width height =
      object (field "widthPx" (py.json_of width) (field "heightPx" (py.json_of height) end))

  -- the dictionary that _print_spec returns
  unfoldable pub print_fields :
      String
      → String
      → py.number_type
      → py.number_type × py.number_type
      → py.number_type × py.number_type
      → py.number_type × py.number_type
      → Fields
  print_fields page orientation dpi mm recommended actual =
      let expected_ratio = py.over recommended.0 recommended.1 in
      let ratio_delta =
        py.over (py.distance (py.over actual.0 actual.1) expected_ratio) expected_ratio in
      field "page" (text page) (
        field "orientation" (text orientation) (
          field "dpi" (py.json_of dpi) (
            field "pageWidthMm" (py.json_of mm.0) (
              field "pageHeightMm" (py.json_of mm.1) (
                field "recommended" (size_fields recommended.0 recommended.1) (
                  field "actual" (size_fields actual.0 actual.1) (
                    field "aspectRatioDelta" (py.json_of (py.rounded ratio_delta)) (
                      field "printReady"
                        (boolean (
                          py.ge (py.ratio 3 100) ratio_delta
                          && py.ge actual.0 (py.times recommended.0 (py.ratio 9 10))))
                        end))))))))

  -- _print_spec
  unfoldable pub print_spec : Fields → Json → Result ServiceError Fields
  unfolding number_of page_size pixels print_fields
  print_spec background spec = do
    fields ← or_raise (as_object spec) type_error
    let page = py.upper (str_of py (get_or "page" (text "A4") fields))
    let orientation = py.upper (str_of py (get_or "orientation" (text "PORTRAIT") fields))
    mm ← or_raise (page_size page orientation) value_error
    dpi ← number_of (get_or "dpi" (number 300) fields)
    guard (not (py.gt (py.ratio 150 1) dpi)) value_error
    width ← pixels mm.0 dpi
    height ← pixels mm.1 dpi
    actual_width ← number_of (get_or "widthPx" (number 0) background)
    actual_height ← number_of (get_or "heightPx" (number 0) background)
    guard (not (not_positive actual_width || not_positive actual_height)) value_error
    ok (print_fields page orientation dpi mm (width, height) (actual_width, actual_height))

  abbrev pub required_kinds : List String
  required_kinds =
      "AWARD_NAME" ∷ "CALLSIGN" ∷ "PERSON_NAME" ∷ "DATE_OBTAINED" ∷ "MANAGER_NAME"
      ∷ "MANAGER_SIGNATURE" ∷ []

  -- a coordinate between 0 and 1
  unfoldable pub fraction_of : Fields → String → Result ServiceError py.number_type
  unfolding number_of
  fraction_of element name = do
    value ← number_of (get_value name element)
    guard (py.is_finite value && (py.ge value zero_number && py.ge (py.ratio 1 1) value))
        value_error
    ok value

  -- a round of the loop over the elements, which adds the kind to `seen`
  unfoldable pub check_element : Json → Result ServiceError String
  unfolding fraction_of
  check_element v = do
    element ← or_raise (as_object v) value_error
    let kind = str_of py (get_or "kind" (text "") element)
    guard (member kind required_kinds || str_eq kind "CUSTOM_TEXT") value_error
    guard
        (not (
          str_eq kind "CUSTOM_TEXT"
          && is_empty (strip (str_of py (get_or "label" (text "") element)))))
        value_error
    x ← fraction_of element "x"
    y ← fraction_of element "y"
    width ← fraction_of element "width"
    height ← fraction_of element "height"
    guard (not (not_positive width || not_positive height)) value_error
    guard
        (not (
          py.gt (py.plus x width) (py.ratio 1000001 1000000)
          || py.gt (py.plus y height) (py.ratio 1000001 1000000)))
        value_error
    ok kind

  unfoldable pub check_elements : List Json → Result ServiceError (List String)
  unfolding check_element
  check_elements [] = ok []
  check_elements (v ∷ vs) = do kind ← check_element v; seen ← check_elements vs; ok (kind ∷ seen)

  -- _validate_elements
  unfoldable pub validate_elements : Json → Result ServiceError (Unit {0})
  unfolding check_elements
  validate_elements (array vs) = do
    seen ← check_elements (items vs)
    guard (subset required_kinds seen) value_error
  validate_elements _ = err value_error
