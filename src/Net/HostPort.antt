-- ===== src/Net/HostPort.antt =====
-- The address of a peer, as the server writes it, splits into its host and its port.
use hegel.Base.{
  ℕ, suc, ◌≡◌, ◌≢◌, refl, false, none, some, [], ◌∷◌, ◌++◌, length, Text, is_some, arith,
  Bool-cases, inl, inr, take-append, drop-append, drop-append_two, length-append, append_assoc,
  All-append,
}
use hegel.Strings.Split.{IsFree}
use hegel.Errors.{ok}
use hegel.Net.{
  index_byte, last_index_byte, bracketed, plain, starts_bracket, split_host_port, join_host_port,
  remote_addr_ip,
}

pub index_byte-free : (s : Text) (c : ℕ) → IsFree c s → index_byte s c ≡ none
unfolding index_byte
index_byte-free [] c h = refl
index_byte-free (x ∷ xs) c h = ground (arith, index_byte-free xs c)

-- The first occurrence behind a text that holds none.
pub index_byte-append :
    (s t : Text) (c : ℕ) → IsFree c s → index_byte (s ++ c ∷ t) c ≡ some (length s)
unfolding index_byte
index_byte-append [] t c h = ground arith
index_byte-append (x ∷ xs) t c h = ground (arith, index_byte-append xs t c)

last_index_byte-free : (s : Text) (c : ℕ) → IsFree c s → last_index_byte s c ≡ none
unfolding last_index_byte
last_index_byte-free [] c h = refl
last_index_byte-free (x ∷ xs) c h = ground (arith, last_index_byte-free xs c)

-- The last occurrence before a text that holds none.
last_index_byte-append :
    (s t : Text) (c : ℕ) → IsFree c t → last_index_byte (s ++ c ∷ t) c ≡ some (length s)
unfolding last_index_byte
last_index_byte-append [] t c h = ground (arith, last_index_byte-free t c h)
last_index_byte-append (x ∷ xs) t c h = ground (arith, last_index_byte-append xs t c h)

pub IsFree-of_index : (s : Text) (c : ℕ) → is_some (index_byte s c) ≡ false → IsFree c s
unfolding index_byte
IsFree-of_index [] c h = tt
IsFree-of_index (x ∷ xs) c h = ground (arith, IsFree-of_index xs c)

IsFree-append : (s t : Text) (c : ℕ) → IsFree c s → IsFree c t → IsFree c (s ++ t)
IsFree-append s t c = All-append (λ x. x ≢ c) s t

-- No byte of the text is a square bracket.
abbrev pub HasNoBracket : Text → Type 0
HasNoBracket s = IsFree b'[' s × IsFree b']' s

starts_bracket-append : (s t : Text) → IsFree b'[' s → starts_bracket (s ++ b':' ∷ t) ≡ false
unfolding starts_bracket
starts_bracket-append [] t h = refl
starts_bracket-append (x ∷ xs) t h = ground arith

module _ (host port : Text) (h : HasNoBracket host) (p : HasNoBracket port) where
  plain_lem : IsFree b':' host → plain (host ++ b':' ∷ port) (length host) ≡ ok (host, port)
  unfolding plain
  plain_lem free = simp (
    take-append host (b':' ∷ port),
    drop-append host port b':',
    index_byte-free host b':' free,
    index_byte-free (host ++ b':' ∷ port) b'['
        (IsFree-append host (b':' ∷ port) b'[' h.0 ((omega arith), p.0)),
    index_byte-free (host ++ b':' ∷ port) b']'
        (IsFree-append host (b':' ∷ port) b']' h.1 ((omega arith), p.1)),
  )

  split_plain :
      IsFree b':' host → IsFree b':' port → split_host_port (host ++ b':' ∷ port) ≡ ok (host, port)
  unfolding split_host_port
  split_plain free last =
      rw (last_index_byte-append host port b':' last, starts_bracket-append host port h.0)
        (plain_lem free)

  abbrev boxed : Text
  boxed = b'[' ∷ (host ++ (b']' ∷ b':' ∷ port))

  bracketed_lem :
      bracketed boxed (suc (suc (length host))) (some (suc (length host))) ≡ ok (host, port)
  unfolding bracketed
  bracketed_lem = ground (
    arith,
    length-append host (b']' ∷ b':' ∷ port),
    take-append host (b']' ∷ b':' ∷ port),
    drop-append host (b':' ∷ port) b']',
    drop-append_two host port b']' b':',
    index_byte-free (b':' ∷ port) b']' ((omega arith), p.1),
    index_byte-free (host ++ b']' ∷ b':' ∷ port) b'['
        (IsFree-append host (b']' ∷ b':' ∷ port) b'[' h.0 ((omega arith), ((omega arith), p.0))),
  )

  last_colon : IsFree b':' port → last_index_byte boxed b':' ≡ some (suc (suc (length host)))
  last_colon last =
      let size : length (host ++ b']' ∷ []) ≡ suc (length host) =
        omega (arith, length-append host (b']' ∷ [])) in
      let e = last_index_byte-append (b'[' ∷ (host ++ b']' ∷ [])) port b':' last in
      rw (append_assoc host (b']' ∷ []) (b':' ∷ port), size) at e

  first_bracket : index_byte boxed b']' ≡ some (suc (length host))
  unfolding index_byte
  first_bracket = ground (arith, index_byte-append host (b':' ∷ port) b']' h.1)

  split_boxed : IsFree b':' port → split_host_port boxed ≡ ok (host, port)
  unfolding split_host_port
  split_boxed last = rw (last_colon last, first_bracket) bracketed_lem

  -- Splitting what joining made gives the host and the port back.
  split_host_port-join_host_port :
      IsFree b':' port → split_host_port (join_host_port host port) ≡ ok (host, port)
  unfolding join_host_port
  split_host_port-join_host_port last = elim (Bool-cases (is_some (index_byte host b':'))) [
    | inl e ↦ rw e (split_boxed last)
    | inr e ↦ rw e (split_plain (IsFree-of_index host b':' e) last)
  ]

  -- The program sees exactly the address of the peer: if neither the host nor the port holds a
  -- square bracket and the port no colon, `RemoteAddrIP` of the address that the server wrote for
  -- them returns the host and no error.
  pub remote_addr_ip-join_host_port :
      IsFree b':' port
      → remote_addr_ip (record { remote_addr = join_host_port host port }) ≡ (host, none)
  unfolding remote_addr_ip
  remote_addr_ip-join_host_port last = rw (split_host_port-join_host_port last)
