-- ===== src/Tests/Retention.antt =====
-- The theorem on the objects of imports at concrete metadata.
use myota_platform.Base.{refl, none, some, String, Option, ◌≡◌}
use myota_platform.Base.Raise.{ok}
use myota_platform.Json.{Json, object, field, text, end, get_value}
use myota_platform.Retention.Source.{source_object}
use myota_platform.Retention.Containment.{IsInside, source_object_stays-IsInside}

abbrev upload : Json
upload =
    object (field "source" (object (field "objectKey" (text "uploads/2026/run.geojson") end)) end)

abbrev never_loads : String → Option Json
never_loads s = none

upload_is_found :
    source_object never_loads upload "imports" ≡ ok (some ("imports", "uploads/2026/run.geojson"))
unfolding source_object get_value
upload_is_found = refl

source_object_stays-IsInside_example : IsInside "imports" ("imports", "uploads/2026/run.geojson")
source_object_stays-IsInside_example =
    source_object_stays-IsInside never_loads upload "imports"
      ("imports", "uploads/2026/run.geojson") upload_is_found
