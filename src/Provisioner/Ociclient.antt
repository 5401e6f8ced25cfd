-- ===== src/Provisioner/Ociclient.antt =====
-- internal/provisioner/ociclient: the calls that oracle.go makes. They act on a state that is a
-- parameter: the cloud and the clock.
pub mod File
pub mod Requests
use ghost_node.Prelude.{ℕ, String, Bool, Option, List, Result}

-- The types of ociclient/core.go, as far as oracle.go reads them.
pub record Instance : Type 0 where
  pub id : String
  pub compartment_id : String
  pub display_name : String
  pub lifecycle_state : String

pub record VnicAttachment : Type 0 where
  pub vnic_id : String
  pub lifecycle_state : String

pub record Vnic : Type 0 where
  pub id : String
  pub is_primary : Bool

pub record PrivateIp : Type 0 where
  pub id : String
  pub compartment_id : String
  pub is_primary : Bool

pub record PublicIp : Type 0 where
  pub id : String
  pub ip_address : String
  pub lifetime : String
  pub lifecycle_state : String

-- An error of the client: an APIError with status 404 (IsNotFound) or 409 (IsConflict), or another.
pub data ClientError : Type 0 where
  api_not_found api_conflict other_error : String → ClientError

-- The calls, the clock, and the pause of PollInterval, which ends early with ctx.Err() when the
-- context is done.
pub record Cloud : Type 1 where
  pub State : Type 0
  pub now : State → ℕ
  pub pause : State → State × Option String
  pub get_instance : String → State → State × Result ClientError Instance
  pub list_vnic_attachments :
      (compartment instance_ : String) → State → State × Result ClientError (List VnicAttachment)
  pub get_vnic : String → State → State × Result ClientError Vnic
  pub list_private_ips : String → State → State × Result ClientError (List PrivateIp)
  pub public_ip_of_private_ip : String → State → State × Result ClientError PublicIp
  pub get_public_ip : String → State → State × Result ClientError PublicIp
  pub delete_public_ip : String → State → State × Option ClientError
  pub create_ephemeral_public_ip :
      (compartment private_ip name : String) → State → State × Result ClientError PublicIp
