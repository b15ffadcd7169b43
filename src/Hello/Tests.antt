-- ===== src/Hello/Tests.antt =====
-- Messages of hello.rs that are accepted and refused.
use ferri_sync.Prelude.{◌≡◌, refl, ◌↔◌, [], ◌∷◌}
use ferri_sync.Prelude.Results.{ok, err}
use ferri_sync.Hello.{
  Hello, HelloFolder, empty_folder_name, validate, check_names, protocol_version,
}
use ferri_sync.Hello.Rules.{IsAcceptable, validate_iff}

abbrev photos : HelloFolder
photos = record { id = "1"; name = "photos"; direction = "push" }

abbrev unnamed : HelloFolder
unnamed = record { id = "2"; name = ""; direction = "push" }

abbrev greeting : Hello
greeting = record {
  version = protocol_version;
  device_id = "laptop";
  device_name = "Laptop";
  cert_fingerprint = [];
  folders = photos ∷ unnamed ∷ [];
}

refused : validate greeting ≡ err (empty_folder_name 1)
unfolding validate check_names
refused = refl

validate_iff_example : (validate greeting ≡ ok tt) ↔ IsAcceptable greeting
validate_iff_example = validate_iff greeting
