-- ===== src/Provisioner/Ociclient/File/Tests.antt =====
-- Runs of LoadFromFile of internal/provisioner/ociclient/ocifile.go, and an instance of its theorem.
use ghost_node.Prelude.{◌≡◌, refl, none, List, [], ◌∷◌, ◌++◌, ok, err}
use ghost_node.Texts.{Text, codes, same, trim_space, trim_left, trim_right, keep, is_space}
use ghost_node.Provisioner.Ociclient.File.{
  Credentials, Files, profile_not_found, before_bracket, section, cut, stored, in_section,
  is_skipped, on_line, on_lines, value_of, or_default, in_home, expand_home, default_path,
  credentials_of, scanned, load_from_file,
}
use ghost_node.Provisioner.Ociclient.File.Printed.{printed, printed_all, load_from_file-printed}

with_slashes : List Text → Text
with_slashes [] = []
with_slashes (part ∷ []) = part
with_slashes (part ∷ next ∷ parts) = part ++ b'/' ∷ with_slashes (next ∷ parts)

abbrev on_disk : List Text → Files
on_disk lines = record {
  user_home = ok (codes "/root");
  join = with_slashes;
  open_ = λ path. ok (lines, none);
}

abbrev frankfurt : Credentials
frankfurt = record {
  tenancy_ocid = codes "ocid1.tenancy";
  user_ocid = codes "ocid1.user";
  fingerprint = codes "20:3b";
  region = codes "eu-frankfurt-1";
  private_key_path = codes "~key.pem";
}

abbrev tokyo : Credentials
tokyo = record frankfurt { region = codes "ap-tokyo-1" }

abbrev both : List Text
both =
    printed_all ((codes "TOKYO", tokyo) ∷ [])
      (printed (codes "DEFAULT") frankfurt ++ printed_all [] [])

load_from_file-printed_example :
    load_from_file (on_disk both) [] []
    ≡ ok (record frankfurt { private_key_path = codes "/root/key.pem" })
unfolding printed_all expand_home in_home default_path or_default same trim_left trim_right keep
    is_space with_slashes
load_from_file-printed_example =
    load_from_file-printed (on_disk both) [] (codes "/root/.oci/config") [] frankfurt
      ((codes "TOKYO", tokyo) ∷ []) []
      ((refl, refl), (refl, refl), (refl, refl), (refl, refl), (refl, refl))
      ((refl, ((refl, refl), (refl, refl), (refl, refl), (refl, refl), (refl, refl))), tt) tt refl
      refl

-- Comments and blank lines are passed over, and space around a key or a value is dropped.
spaced :
    load_from_file
      (on_disk (
        codes "# made by hand"
        ∷ codes ""
        ∷ codes "[DEFAULT]"
        ∷ codes " region =  eu-frankfurt-1 "
        ∷ codes "no key"
        ∷ []))
      (codes "/c")
      []
    ≡ ok (record {
      tenancy_ocid = [];
      user_ocid = [];
      fingerprint = [];
      region = codes "eu-frankfurt-1";
      private_key_path = [];
    })
unfolding load_from_file scanned credentials_of on_lines on_line is_skipped in_section stored
    section cut before_bracket value_of expand_home in_home default_path or_default same trim_space
    trim_left trim_right keep is_space
spaced = refl

-- A profile that the file has not is an error.
missing :
    load_from_file (on_disk both) (codes "/c") (codes "OSAKA")
    ≡ err (profile_not_found (codes "OSAKA") (codes "/c"))
unfolding load_from_file scanned credentials_of on_lines on_line is_skipped in_section stored
    section cut before_bracket value_of expand_home in_home default_path or_default same trim_space
    trim_left trim_right keep is_space printed_all
missing = refl
