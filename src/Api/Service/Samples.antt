-- ===== src/Api/Service/Samples.antt =====
-- A service on the flat file of the samples, behind a proxy.
use hegel.Base.{ℕ, ◌+◌, ◌-◌, ◌≡◌, refl, List, [], ◌∷◌, Text, bytes, text_eq}
use hegel.Strings.{split}
use hegel.Strings.Space.{trim_space}
use hegel.Errors.{
  GoError, text, Result, ok, err, errors_is, http_new, sentinel, err_instance_not_found,
}
use hegel.Errors as Go
use hegel.Net.{Header, Request, join_host_port, index_byte}
use hegel.Net.Samples.{port}
use hegel.Net.Addr.{parse_addr, parse_ip, is_to4}
use hegel.Net.Addr.Cidr.{parse_cidr}
use hegel.Gin.{Call, abort_with_error}
use hegel.Gin.Chain.{Exchange, Library, Middleware}
use hegel.Flatfile.Samples.{two_of_one}
use hegel.Backend.Samples.{world}
use hegel.Cmd.{RootCommandOptions, start}
use hegel.Cmd.Samples.{on_file}
use hegel.Ec2.Handlers.{code_of}
use hegel.Xff.{parse, middleware_from_unparsed}
use hegel.Api.Machines.{HasFile, file_client, started}
use hegel.Api.Samples.{env}
use hegel.Api.Service.{run, service}

abbrev status : List (Call Text) → ℕ
status [] = 200
status (call ∷ calls) = code_of call

abbrev errors : List (Call Text) → List Text
errors [] = []
errors (abort_with_error code e ∷ calls) = Go.error e ∷ errors calls
errors (_ ∷ calls) = errors calls

abbrev pub lib : Library Text ℕ ℕ
lib = record {
  client_ip = λ request. request.remote_addr;
  status = status;
  errors = errors;
  sub = λ end start. end - start;
  done = λ request start. start + 3;
}

abbrev pub recovery : Middleware Text ℕ ℕ
recovery next c = next c

-- The host that the header names, as the peer's.
abbrev rewrite : Header → Request → Request
rewrite header request = elim (header (bytes "X-Forwarded-For")) [
  | [] ↦ request
  | v ∷ vs ↦ record { remote_addr = join_host_port v port }
]

-- The xff library, for a peer that is a trusted proxy.
abbrev pub new_xff : List Text → Result (Header → Request → Request)
new_xff subnets = ok rewrite

abbrev pub behind_proxy : RootCommandOptions
behind_proxy = record on_file { trusted_proxies = bytes "192.168.0.0/24" }

abbrev pub forwarding : (Request → Exchange Text ℕ ℕ) → Header → Request → Exchange Text ℕ ℕ
forwarding next header request = next (rewrite header request)

trusting : middleware_from_unparsed new_xff (bytes "192.168.0.0/24") ≡ ok forwarding
unfolding middleware_from_unparsed Go.relabel parse split trim_space parse_cidr parse_ip parse_addr
    is_to4 index_byte text_eq
trusting = refl

pub behind_proxy-HasFile : HasFile world behind_proxy two_of_one
unfolding text_eq
behind_proxy-HasFile = record {
  named = refl;
  nonempty = cc;
  contents = bytes "two";
  opens = refl;
  decodes = refl;
}

on_file-started : start world behind_proxy ≡ ok (file_client two_of_one)
on_file-started = started world behind_proxy two_of_one behind_proxy-HasFile

pub serving :
    run world env lib recovery new_xff behind_proxy
    ≡ ok (service world env lib recovery new_xff behind_proxy (file_client two_of_one) forwarding)
unfolding run
serving = rw (on_file-started, trusting)
