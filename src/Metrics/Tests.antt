-- ===== src/Metrics/Tests.antt =====
-- Registries that are lists of names.
use hegel.Base.{
  ◌≡◌, refl, Bool, true, false, Option, none, some, List, [], ◌∷◌, Text, text_eq, text_eq_iff,
  text_eq-ne, Memᴰ, Bool-cases, inl, inr, if◌then◌else◌,
}
use hegel.Metrics.{Vec, request_count, request_duration, instrument, instrument_request_count}
use hegel.Metrics.Registration.{Registers, instrument-once}

has : Text → List Text → Bool
has name [] = false
has name (n ∷ names) = if text_eq name n then true else has name names

has-mem : (name : Text) (names : List Text) → Memᴰ name names → has name names ≡ true
unfolding has
has-mem name [] m = elim m [ ]
has-mem name (n ∷ names) (Memᴰ.head e) = rw ((text_eq_iff name n).1 e)
has-mem name (n ∷ names) (Memᴰ.tail m) = elim (Bool-cases (text_eq name n)) [
  | inl t ↦ rw t
  | inr f ↦ rw f (has-mem name names m)
]

has-not_mem : (name : Text) (names : List Text) → ¬ Memᴰ name names → has name names ≡ false
unfolding has
has-not_mem name [] h = refl
has-not_mem name (n ∷ names) h =
    rw (text_eq-ne name n (λ e. h (Memᴰ.head e))) (has-not_mem name names (λ m. h (Memᴰ.tail m)))

register : Vec → List Text → Option (List Text)
unfolding has
register v names = if has v.name names then none else some (v.name ∷ names)

register-Registers : Registers register
unfolding register
register-Registers = record {
  names = λ ns. ns;
  refuses = λ v names m. rw (has-mem v.name names m);
  accepts = λ v names h. (v.name ∷ names, rw (has-not_mem v.name names h), refl);
}

instrument-once_example :
    (d : List Text) × (g : List Text) × (instrument register [] [] ≡ some (d, g))
    × (register-Registers.names g ≡ request_duration.name ∷ request_count.name ∷ [])
    × ((registrar : List Text) → instrument_request_count register d registrar ≡ none)
unfolding register-Registers
instrument-once_example =
    instrument-once (List Text) register register-Registers [] [] (λ m. elim m [ ]) refl
