-- ===== src/Legacy/Context.antt =====
-- What the handlers of the old frontend ask of gin: the calls on the context, and what they read of it.
use hegel.Base.{ℕ, zero, suc, List, [], ◌∷◌, ◌++◌, Option, none, some, Text, bytes, GoMap, lookup}
use hegel.Strconv.{itoa}
use hegel.Errors.{Result, ok, err}
use hegel.Legacy.Models.{K8sNetworkInterface, K8sHardwareDisk}

-- metadataJSON
pub record MetadataJson : Type 0 where
  pub interfaces : List K8sNetworkInterface
  pub disks : List K8sHardwareDisk
  pub ssh_keys : List Text
  pub hostname : Text
  pub gateway : Text

-- c.String, c.JSON, c.IndentedJSON and c.Header. A nil body is `none`. `panic` is no call: it stands
-- for an index out of the range of a slice.
pub data Call : Type 0 where
  string : ℕ → Text → Call
  json indented_json : ℕ → Option MetadataJson → Call
  header : Text → Text → Call
  panic : Call

-- What a handler reads: c.ClientIP(), the values of the path's parameters, and the header fields.
pub record Context : Type 0 where
  pub client_ip : Text
  pub params : GoMap Text
  pub headers : GoMap (List Text)

abbrev pub Handler : Type 0
Handler = Context → List Call

abbrev or_empty : Option Text → Text
or_empty none = []
or_empty (some value) = value

abbrev or_nil : Option (List Text) → List Text
or_nil none = []
or_nil (some values) = values

-- c.Param(key), which is empty where the path has no such parameter
unfoldable pub param : Text → Context → Text
unfolding hegel.Base.lookup
param key c = or_empty (lookup key c.params)

-- c.Request.Header[key]
unfoldable pub header_values : Text → Context → List Text
unfolding hegel.Base.lookup
header_values key c = or_nil (lookup key c.headers)

-- fmt.Sprintln of an index
unfoldable pub sprintln : ℕ → Text
sprintln i = itoa i ++ bytes "\n"

-- The first lines that the handlers share: the error of getHardware, and the return behind it.
unfoldable pub on_hardware {ℓ} : {R : Type ℓ} → Result R → (R → List Call) → List Call
on_hardware (err e) reply = json 404 none ∷ []
on_hardware (ok hardware) reply = reply hardware
