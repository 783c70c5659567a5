-- ===== src/Hack/Answers.antt =====
-- What the /metadata handler answers.
use hegel.Base.{◌≡◌, ◌⊎◌, inl, inr, refl, none, some, List, [], ◌∷◌, Text, bytes}
use hegel.Strings.Split.{IsFree}
use hegel.Errors.{GoError, text, Result, ok, err}
use hegel.Net.{Request, remote_addr_ip, join_host_port}
use hegel.Net.HostPort.{HasNoBracket, remote_addr_ip-join_host_port}
use hegel.Gin.{Call, json, abort_with_error}
use hegel.Hack.{Instance, Client, metadata_handler}

module _ (J : Type 0) (encode : Instance → J) (client : Client) where
  -- The client has the instance, and the calls are the one answer with it; or the client fails, and
  -- they are the one answer of a 500 with its error.
  abbrev pub IsAnswer : Result Instance → List (Call J) → Type 0
  IsAnswer found calls =
      ((i : Instance) × (found ≡ ok i) × (calls ≡ json 200 (encode i) ∷ []))
      ⊎ ((e : GoError) × (found ≡ err e) × (calls ≡ abort_with_error 500 e ∷ []))

  reply-IsAnswer :
      (host port : Text) (found : Result Instance)
      → remote_addr_ip (record { remote_addr = join_host_port host port }) ≡ (host, none)
      → client.get_hack_instance host ≡ found
      → IsAnswer found
          (metadata_handler encode client (record { remote_addr = join_host_port host port }))
  unfolding metadata_handler
  reply-IsAnswer host port (ok i) addr asked = inl (i, refl, rw addr (rw asked))
  reply-IsAnswer host port (err e) addr asked = inr (e, refl, rw addr (rw asked))

  -- A peer whose host and port hold no square bracket and whose port no colon gets exactly one
  -- answer, by what the client has for its host: the instance with 200, or the client's error with
  -- 500, also where that error says that the machine is not known.
  pub metadata_handler-peer :
      (host port : Text)
      → HasNoBracket host
      → HasNoBracket port
      → IsFree b':' port
      → IsAnswer
          (client.get_hack_instance host)
          (metadata_handler encode client (record { remote_addr = join_host_port host port }))
  metadata_handler-peer host port h p free =
      reply-IsAnswer host port _ (remote_addr_ip-join_host_port host port h p free) refl

  -- The missing return: a request whose address does not split is answered with 400, and then once
  -- more, as a peer with an empty host is, whatever its port (without a square bracket or a colon):
  -- the client is asked for the data of the empty address.
  pub metadata_handler-bad_address :
      (r : Request) (e : GoError) (port : Text)
      → (remote_addr_ip r) ≡ ([], some e)
      → HasNoBracket port
      → IsFree b':' port
      → metadata_handler encode client r
        ≡ abort_with_error 400 (text (bytes "invalid remote address"))
          ∷ metadata_handler encode client (record { remote_addr = join_host_port [] port })
  unfolding metadata_handler
  metadata_handler-bad_address r e port bad p free =
      rw (bad, remote_addr_ip-join_host_port [] port (tt, tt) p free)
