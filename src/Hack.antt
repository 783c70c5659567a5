-- ===== src/Hack.antt =====
-- internal/frontend/hack: the /metadata endpoint for the rootio hub action. The nested anonymous
-- structs of the source are named records here.
pub mod Answers
mod Tests
use hegel.Base.{ℕ, ℤ, Bool, Option, none, some, List, [], ◌∷◌, ◌++◌, Text, bytes}
use hegel.Errors.{GoError, text, Result, ok, err}
use hegel.Net.{Request, remote_addr_ip}
use hegel.Gin.{Call, json, abort_with_error, Handler, Router, get}

pub record Partition : Type 0 where
  pub label : Text
  pub number : ℤ
  pub size : ℕ

pub record Disk : Type 0 where
  pub device : Text
  pub partitions : List Partition
  pub wipe_table : Bool

pub record Create : Type 0 where
  pub options : List Text

pub record Mount : Type 0 where
  pub create : Create
  pub device : Text
  pub format : Text
  pub point : Text

pub record Filesystem : Type 0 where
  pub mount : Mount

pub record Storage : Type 0 where
  pub disks : List Disk
  pub filesystems : List Filesystem

pub record MetadataInstance : Type 0 where
  pub storage : Storage

pub record Metadata : Type 0 where
  pub inst : MetadataInstance

pub record Instance : Type 0 where
  pub metadata : Metadata

pub record Client : Type 0 where
  pub get_hack_instance : Text → Result Instance

module _ {J : Type 0} (encode : Instance → J) where
  -- The address check. There is no return behind the 400.
  check_address : Option GoError → List (Call J)
  check_address none = []
  check_address (some e) = abort_with_error 400 (text (bytes "invalid remote address")) ∷ []

  reply : Result Instance → List (Call J)
  reply (err e) = abort_with_error 500 e ∷ []
  reply (ok instance) = json 200 (encode instance) ∷ []

  -- the handler of /metadata
  unfoldable pub metadata_handler : Client → Handler J
  unfolding check_address reply
  metadata_handler client request =
      let (ip, e) = remote_addr_ip request in check_address e ++ reply (client.get_hack_instance ip)

  -- Configure
  unfoldable pub configure : Client → Router J → Router J
  configure client router = get [] (bytes "/metadata") (metadata_handler client) router
