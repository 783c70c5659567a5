-- ===== src/Ec2/Handlers.antt =====
-- What the handlers of the data endpoints answer, on every branch.
use hegel.Base.{
  ℕ, ◌≡◌, ◌↔◌, ◌⊎◌, inl, inr, refl, true, false, Bool-cases, subst, Option, none, some, List, [],
  ◌∷◌, map, Text, bytes, arith, if◌then◌else◌,
}
use hegel.Strings.Split.{IsFree}
use hegel.Errors.{
  GoError, Result, ok, err, errors_is, errors_as, err_instance_not_found, http_new, http_wrap,
}
use hegel.Net.{Request, remote_addr_ip, join_host_port}
use hegel.Net.HostPort.{HasNoBracket, remote_addr_ip-join_host_port}
use hegel.Gin.{Call, string, json, abort_with_error}
use hegel.Instance.{Instance}
use hegel.Ec2.{Client, get_instance, data_handler, classify, get_for, answer, abort_for}

classify-status :
    (found : Result Instance) (e : GoError)
    → classify found ≡ err e
    → (code : ℕ) × (errors_as e ≡ some code) × ((code ≡ 404) ⊎ (code ≡ 500))
unfolding classify http_new http_wrap errors_as
classify-status (ok i) e h = cc
classify-status (err x) e h = elim (Bool-cases (errors_is x err_instance_not_found)) [
  | inl t ↦ (404, ground arith, inl refl)
  | inr f ↦ (500, ground arith, inr refl)
]

-- Every error of getInstance carries a status code, and this is 400, 404 or 500.
pub get_instance-status :
    (client : Client) (r : Request) (e : GoError)
    → get_instance client r ≡ err e
    → (code : ℕ) × (errors_as e ≡ some code) × ((code ≡ 400) ⊎ ((code ≡ 404) ⊎ (code ≡ 500)))
unfolding get_instance http_new errors_as
get_instance-status client r e h = go (remote_addr_ip r) h
  where
    go :
        (a : Text × Option GoError)
        → get_for client a ≡ err e
        → (code : ℕ) × (errors_as e ≡ some code) × ((code ≡ 400) ⊎ ((code ≡ 404) ⊎ (code ≡ 500)))
    go (ip, some x) k = (400, ground arith, inl refl)
    go (ip, none) k =
        let (code, has, which) = classify-status (client.get_ec2_instance ip) e k in
        (code, has, inr which)

-- The status code of a call.
abbrev pub code_of : {J : Type 0} → Call J → ℕ
code_of (string code body) = code
code_of (json code body) = code
code_of (abort_with_error code e) = code

abbrev pub codes_of : {J : Type 0} → List (Call J) → List ℕ
codes_of calls = map code_of calls

expected_code : Option GoError → Result Instance → ℕ
expected_code (some e) found = 400
expected_code none (ok i) = 200
expected_code none (err e) = if errors_is e err_instance_not_found then 404 else 500

-- What each status code says of the address and of the client's answer.
abbrev pub Means : ℕ → Option GoError → Result Instance → Type 0
Means code address found =
    ((code ≡ 400) × ((e : GoError) × (address ≡ some e)))
    ⊎ (((code ≡ 200) × (address ≡ none) × ((i : Instance) × (found ≡ ok i)))
        ⊎ (((code ≡ 404)
              × (address ≡ none)
              × ((e : GoError) × (found ≡ err e) × (errors_is e err_instance_not_found ≡ true)))
            ⊎ ((code ≡ 500)
                × (address ≡ none)
                × ((e : GoError) × (found ≡ err e)
                    × (errors_is e err_instance_not_found ≡ false)))))

expected_code-Means :
    (address : Option GoError) (found : Result Instance)
    → Means (expected_code address found) address found
unfolding expected_code
expected_code-Means (some e) found = inl (refl, (e, refl))
expected_code-Means none (ok i) = inr (inl (refl, refl, (i, refl)))
expected_code-Means none (err e) = elim (Bool-cases (errors_is e err_instance_not_found)) [
  | inl t ↦ inr (inr (inl (rw t, refl, (e, refl, t))))
  | inr f ↦ inr (inr (inr (rw f, refl, (e, refl, f))))
]

Means-expected_code :
    (code : ℕ) (address : Option GoError) (found : Result Instance)
    → Means code address found
    → code ≡ expected_code address found
unfolding expected_code
Means-expected_code code (some e) found h = ground arith
Means-expected_code code none (ok i) h = ground arith
Means-expected_code code none (err e) (inl h) = ground arith
Means-expected_code code none (err e) (inr (inl h)) = ground arith
Means-expected_code code none (err e) (inr (inr (inl (c, _, (x, same, t))))) =
    let this : e ≡ x = cc in rw (c, this, t)
Means-expected_code code none (err e) (inr (inr (inr (c, _, (x, same, f))))) =
    let this : e ≡ x = cc in rw (c, this, f)

module _ (J : Type 0) (client : Client) (filter : Instance → Text) where
  answer-expected_code :
      (ip : Text) (o : Option GoError) (found : Result Instance)
      → client.get_ec2_instance ip ≡ found
      → codes_of (answer {J = J} filter (get_for client (ip, o))) ≡ expected_code o found ∷ []
  unfolding answer get_for abort_for classify expected_code errors_as http_new http_wrap
  answer-expected_code ip (some e) found h = refl
  answer-expected_code ip none (ok i) h = rw h
  answer-expected_code ip none (err e) h = rw h (ground arith)

  codes-expected_code :
      (r : Request)
      → codes_of (data_handler {J = J} client filter r)
        ≡ expected_code (remote_addr_ip r).1 (client.get_ec2_instance (remote_addr_ip r).0) ∷ []
  unfolding data_handler get_instance
  codes-expected_code r = answer-expected_code _ (remote_addr_ip r).1 _ refl

  -- The handler answers every request exactly once: with 400 exactly when the peer's address does
  -- not split, and else, by what the client answers for the peer's host, with 200 exactly when it
  -- finds a machine, with 404 exactly when its error is or wraps ErrInstanceNotFound, and with 500
  -- exactly when it is any other error.
  pub data_handler-code_iff :
      (r : Request) (code : ℕ)
      → (codes_of (data_handler {J = J} client filter r) ≡ code ∷ [])
        ↔ Means code (remote_addr_ip r).1 (client.get_ec2_instance (remote_addr_ip r).0)
  data_handler-code_iff r code =
      let address = (remote_addr_ip r).1 in
      let found = client.get_ec2_instance (remote_addr_ip r).0 in
      rw (codes-expected_code r) (
        λ e.
            let same : expected_code address found ≡ code = cc in
            subst (λ k. Means k address found) same (expected_code-Means address found),
        λ h. let same = Means-expected_code code address found h in rw same,
      )

  -- A peer is served its own data: if neither its host nor its port holds a square bracket and its
  -- port no colon, the handler answers 200 with the filtered instance that the client has for
  -- exactly this host.
  pub data_handler-peer :
      (host port : Text) (i : Instance)
      → HasNoBracket host
      → HasNoBracket port
      → IsFree b':' port
      → client.get_ec2_instance host ≡ ok i
      → data_handler {J = J} client filter (record { remote_addr = join_host_port host port })
        ≡ string 200 (filter i) ∷ []
  unfolding data_handler get_instance get_for classify answer
  data_handler-peer host port i h p free found =
      rw (remote_addr_ip-join_host_port host port h p free) (rw (found, classify))

  -- The same for a peer whose host the client does not know: a 404 with the message of getInstance,
  -- whatever else the client's error says.
  pub data_handler-unknown :
      (host port : Text) (e : GoError)
      → HasNoBracket host
      → HasNoBracket port
      → IsFree b':' port
      → client.get_ec2_instance host ≡ err e
      → errors_is e err_instance_not_found ≡ true
      → data_handler {J = J} client filter (record { remote_addr = join_host_port host port })
        ≡ abort_with_error 404 (http_new 404 (bytes "no hardware found for source ip")) ∷ []
  unfolding data_handler get_instance get_for classify answer abort_for errors_as http_new
  data_handler-unknown host port e h p free asked missing =
      rw (remote_addr_ip-join_host_port host port h p free) (rw asked (rw missing))

  -- The same for any other error of the client: a 500 with this error.
  pub data_handler-failing :
      (host port : Text) (e : GoError)
      → HasNoBracket host
      → HasNoBracket port
      → IsFree b':' port
      → client.get_ec2_instance host ≡ err e
      → errors_is e err_instance_not_found ≡ false
      → data_handler {J = J} client filter (record { remote_addr = join_host_port host port })
        ≡ abort_with_error 500 (http_wrap 500 e) ∷ []
  unfolding data_handler get_instance get_for classify answer abort_for errors_as http_wrap
  data_handler-failing host port e h p free asked other =
      rw (remote_addr_ip-join_host_port host port h p free) (rw asked (rw other))
