-- ===== src/Metrics/Registration.antt =====
-- Whether the metrics can be registered: once in a process.
use hegel.Base.{◌≡◌, refl, Option, none, some, List, [], ◌∷◌, Text, text_eq, ne_of_text_eq, Memᴰ}
use hegel.Metrics.{
  Vec, request_count, request_duration, instrument_request_count, instrument_request_duration,
  instrument,
}

-- What a registry of prometheus does: MustRegister panics exactly where there is a collector of the
-- name, and otherwise adds it.
pub record Registers {G : Type 0} (must_register : Vec → G → Option G) : Type 0 where
  pub names : G → List Text
  pub refuses : (v : Vec) (g : G) → Memᴰ v.name (names g) → must_register v g ≡ none
  pub accepts :
      (v : Vec) (g : G)
      → ¬ Memᴰ v.name (names g)
      → (g' : G) × (must_register v g ≡ some g') × (names g' ≡ v.name ∷ names g)

duration-not_mem : ¬ Memᴰ request_duration.name (request_count.name ∷ [])
unfolding text_eq
duration-not_mem (Memᴰ.head e) = ne_of_text_eq request_duration.name request_count.name refl e
duration-not_mem (Memᴰ.tail m) = elim m [ ]

module _ (G : Type 0) (must_register : Vec → G → Option G) (r : Registers must_register) where
  -- The registrations of Run on a new registry do not panic where the default registerer of the
  -- process has no counter of the name yet; and after them InstrumentRequestCount panics, whatever
  -- the registrar: there is one default registerer for all of them.
  pub instrument-once :
      (default_registerer registry : G)
      → ¬ Memᴰ request_count.name (r.names default_registerer)
      → r.names registry ≡ []
      → (d : G) × (g : G) × (instrument must_register default_registerer registry ≡ some (d, g))
        × (r.names g ≡ request_duration.name ∷ request_count.name ∷ [])
        × ((registrar : G) → instrument_request_count must_register d registrar ≡ none)
  unfolding instrument instrument_request_count instrument_request_duration
  instrument-once default_registerer registry free new =
      let (d, made, names_d) = r.accepts request_count default_registerer free in
      let (g, made', names_g) = r.accepts request_count registry (λ m. elim (rw new at m) [ ]) in
      let (g', made'', names_g') =
        r.accepts request_duration g (λ m. duration-not_mem (rw (names_g, new) at m)) in
      (
        d,
        g',
        rw (made, made', made''),
        rw (names_g', names_g, new),
        λ registrar. rw (r.refuses request_count d (rw names_d (Memᴰ.head refl))),
      )
