-- ===== src/Runtime/Command.antt =====
-- Commands over the registry's state, what ends one, and the reads and writes of headers and bodies.
use owned_c.Base.{
  ◌≡◌, refl, ℕ, ◌+◌, String, Option, none, some, List, [], ◌∷◌, ◌++◌, leb, ◌==◌, if◌then◌else◌,
}
use owned_c.Runtime.State.{
  Ptr, null, Meta, filled, Block, Line, text, reason, object, location, size_bytes, allocated_at,
  meta_size, State,
}

-- How a call ends: it returns, it leaves the process by `exit`, it calls `abort`, or it does what C
-- leaves undefined, such as a read of memory that is not there. A loop on fuel may run out of it.
pub data Run (A B : Type 0) : Type 0 where
  ok : B → State A → Run A B
  exited : (code : ℕ) → State A → Run A B
  aborted : State A → Run A B
  fault : Run A B
  out_of_fuel : Run A B

abbrev pub Cmd : Type 0 → Type 0 → Type 0
Cmd A B = State A → Run A B

-- `ownedc_diagnostics_fatal`: the report, then `exit(1)`.
abbrev pub fatal_report : String → Ptr → Option String → ℕ → List Line
fatal_report why p file line =
    text "OwnedC: Ownership Violation Detected"
      ∷ reason why
      ∷ (if p == null then [] else object p ∷ [])
    ++ (elim file [ none ↦ [] | some f ↦ location f line ∷ [] ])
    ++ text "Program terminated." ∷ []

-- `ownedc_diagnostics_report_leak`
abbrev pub leak_report : Ptr → String → ℕ → ℕ → List Line
leak_report p file line size =
    text "OwnedC: Memory Leak Detected" ∷ object p ∷ size_bytes size ∷ allocated_at file line ∷ []

module _ {A B : Type 0} where
  abbrev pub pure : B → Cmd A B
  pure b s = ok b s

  abbrev pub undefined : Cmd A B
  undefined s = fault

  abbrev pub gets : (State A → B) → Cmd A B
  gets f s = ok (f s) s

module _ {A B C : Type 0} where
  abbrev pub and_then : Run A B → (B → Cmd A C) → Run A C
  and_then (ok b s) k = k b s
  and_then (exited code s) k = exited code s
  and_then (aborted s) k = aborted s
  and_then fault k = fault
  and_then out_of_fuel k = out_of_fuel

  infixl 5 ◌>>=◌ ◌>>◌
  abbrev pub ◌>>=◌ : Cmd A B → (B → Cmd A C) → Cmd A C
  ◌>>=◌ m k s = and_then (m s) k

  abbrev pub ◌>>◌ : Cmd A B → Cmd A C → Cmd A C
  ◌>>◌ m n s = and_then (m s) (λ _. n)

module _ {A : Type 0} where
  abbrev pub modify : (State A → State A) → Cmd A Unit
  modify f s = ok tt (f s)

  -- `cells` with the block at `p` replaced, or given back for `none`.
  abbrev pub put : (Ptr → Option (Block A)) → Ptr → Option (Block A) → Ptr → Option (Block A)
  put c p o q = if q == p then o else c q

  abbrev pub set_cell : Ptr → Option (Block A) → State A → State A
  set_cell p o s = record s { cells = put s.cells p o }

  -- The header at `m`, and a change of it. Memory that is not there must not be touched.
  unfoldable pub load : Ptr → Cmd A Meta
  load m s = elim (s.cells m) [ none ↦ fault | some b ↦ ok b.header s ]

  unfoldable pub update : Ptr → (Meta → Meta) → Cmd A Unit
  update m f s = elim (s.cells m) [
    | none ↦ fault
    | some b ↦ ok tt (set_cell m (some (record b { header = f b.header })) s)
  ]

  -- OWNEDC_MEMSET of `n` bytes at the user pointer of the block `m`.
  unfoldable pub memset : Ptr → (v n : ℕ) → Cmd A Unit
  memset m v n s = elim (s.cells m) [
    | none ↦ fault
    | some b ↦
        if leb (meta_size + n) b.room
        then ok tt (set_cell m (some (record b { body = filled v n })) s)
        else fault
  ]

  -- printf
  abbrev pub print : Line → Cmd A Unit
  print l = modify (λ s. record s { output = s.output ++ l ∷ [] })

  abbrev pub print_all : List Line → Cmd A Unit
  print_all ls = modify (λ s. record s { output = s.output ++ ls })

  unfoldable pub diagnostics_report_leak : Ptr → String → ℕ → ℕ → Cmd A Unit
  diagnostics_report_leak p file line size = print_all (leak_report p file line size)

module _ {A B : Type 0} where
  -- The call does not return, so it stands for a result of any type.
  unfoldable pub diagnostics_fatal : String → Ptr → Option String → ℕ → Cmd A B
  diagnostics_fatal why p file line s =
      exited 1 (record s { output = s.output ++ fatal_report why p file line })

  -- OWNEDC_PRINTF, then OWNEDC_ABORT.
  abbrev pub abort : Line → Cmd A B
  abort l s = aborted (record s { output = s.output ++ l ∷ [] })

module _ {A B C D : Type 0} where
  pub and_then_assoc :
      (r : Run A B) (f : B → Cmd A C) (g : C → Cmd A D)
      → and_then (and_then r f) g ≡ and_then r (λ b s. and_then (f b s) g)
  and_then_assoc (ok b s) f g = refl
  and_then_assoc (exited code s) f g = refl
  and_then_assoc (aborted s) f g = refl
  and_then_assoc fault f g = refl
  and_then_assoc out_of_fuel f g = refl

module _ {A : Type 0} where
  pub and_then_done : (r : Run A Unit) → and_then r (λ _. pure tt) ≡ r
  and_then_done (ok tt s) = refl
  and_then_done (exited code s) = refl
  and_then_done (aborted s) = refl
  and_then_done fault = refl
  and_then_done out_of_fuel = refl
