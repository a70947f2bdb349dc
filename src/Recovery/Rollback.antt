-- ===== src/Recovery/Rollback.antt =====
-- The loop of `execute` and its rollback, seen on the files.
use mathlib.Core.Path.{fun_ext}
use local_book.Base.{
  All, List, Option, Result, Result-cases, String, [], err, inl, inr, none, refl, some, subst, sym,
  ℕ, ◌+◌, ◌∷◌, ◌≡◌, ◌≢◌, ◌⊎◌, nat_eq, string_eq, option_eq, list_eq,
}
use local_book.Recovery.{
  Bytes, Fault, History, Operation, RecoveryResult, Vault, committed, conflict, filled,
  rollback_failed, rolled_back,
}
use local_book.Recovery.Journal.{record_operation}
use local_book.Recovery.Executor.{after_hash_of, rollback_steps, run_steps}
use Prim.{⊥}
use local_book.Recovery.Steps.{Applied, Changed, IsCaptured, IsLawful, Same, StrayedAs, View}
use local_book.Recovery.Inverse.{run, step}

module _ (canonical : String → String) (digest : Bytes → String) (V : Vault)
    (L : IsLawful canonical digest V) (encode64 : Bytes → String) (size64 : String → ℕ) where
  open L use {contents}

  -- Taking the executed steps back, the newest first, leads from one state of the files to another.
  abbrev Chain : List (Operation × String) → View → View → Type 0
  Chain [] now first = Same first now
  Chain ((o, after) ∷ rest) now first = (old : View) × Applied o old now × Chain rest old first

  abbrev steps_back :
      List (Operation × String)
      → List String
      → V.State
      → List String × Option (String × Fault) × V.State
  steps_back = rollback_steps digest encode64 size64 V

  Chain-eq :
      (ex : List (Operation × String)) (a b first : View)
      → Same a b
      → Chain ex a first
      → Chain ex b first
  Chain-eq ex a b first same c = subst (λ v. Chain ex v first) (fun_ext (λ q. sym (same q))) c

  abbrev after_of : Operation → Option String → Result Fault String
  after_of = after_hash_of digest encode64 size64 V

  -- A digest with text is the one recorded for the step.
  after_hash-given :
      (o : Operation) (d x : Option String) (f : Fault)
      → filled d ≡ x
      → filled d ≢ none
      → after_of o d ≢ err f
  unfolding after_hash_of
  after_hash-given o d none f e h g = h e
  after_hash-given o d (some t) f e h g = let g' = rw (e, after_hash_of) at g in cc

  abbrev OneOf : Operation → List Operation → Type 0
  OneOf o [] = ⊥
  OneOf o (x ∷ rest) = (o ≡ x) ⊎ OneOf o rest

  -- The call of the vault for one of the operations has raised after it had changed a file, at the
  -- paths of that operation.
  abbrev pub Strays : List Operation → Type 0
  Strays ops =
      (o : Operation) × OneOf o ops
      × (s : V.State) × (f : Fault) × ((run canonical digest V L encode64 size64 o s).0 ≡ err f)
      × Changed (contents s) (contents (run canonical digest V L encode64 size64 o s).1)
      × StrayedAs o.kind o (contents s) (contents (run canonical digest V L encode64 size64 o s).1)

  stray_later :
      {A : Type 0} (o : Operation) (rest : List Operation) → A ⊎ Strays rest → A ⊎ Strays (o ∷ rest)
  stray_later o rest (inl a) = inl a
  stray_later o rest (inr (x, there, s, f, raised, differ, off)) =
      inr (x, inr there, s, f, raised, differ, off)

  -- The loop of `execute` leaves the executed steps in a chain from the files it began with, or a
  -- call has raised after a change.
  pub run_steps-Chain :
      (max_bytes : ℕ) (job : String) (ops : List Operation) (seq used : ℕ)
      (ex : List (Operation × String)) (s : V.State) (h : Option History) (first : View)
      → All (IsCaptured canonical digest) ops
      → Chain ex (contents s) first
      → let p = run_steps digest encode64 size64 V max_bytes job ops seq used ex s h in
        Chain p.executed (contents p.vault) first ⊎ Strays ops
  unfolding run_steps
  run_steps-Chain max_bytes job [] seq used ex s h first caps c = inl c
  run_steps-Chain max_bytes job (o ∷ rest) seq used ex s h first (cap, caps) c =
      let recording = record_operation digest encode64 size64 max_bytes job seq o used h in
      let ran = run canonical digest V L encode64 size64 o s in
      let stepped = step canonical digest V L encode64 size64 o s o.kind refl cap in
      elim (Result-cases recording.0) [
        | inr (f, e) ↦ rw (e, run_steps) (inl c)
        | inl (used', e) ↦ elim (Result-cases ran.0) [
          | inr (f, e') ↦
              rw (e, e', run_steps)
                (elim (rw e' at stepped) [
                  | inl same ↦ inl (Chain-eq ex (contents s) (contents ran.1) first same c)
                  | inr (differ, off) ↦ inr (o, inl refl, s, f, e', differ, off)
                ])
          | inl (d, e') ↦ elim (Result-cases (after_of o d)) [
            | inr (f, e'') ↦
                elim (after_hash-given o d (filled d) f refl (rw e' at stepped).1 e'') [ ]
            | inl (after, e'') ↦
                rw (e, e', e'', run_steps)
                  (stray_later o rest (
                    run_steps-Chain max_bytes job rest (seq + 1) used' ((o, after) ∷ ex) ran.1
                      recording.1 first caps (contents s, (rw e' at stepped).0, c)))
          ]
        ]
      ]

  -- The operations lead, one after the other, from one state of the files to another.
  abbrev pub Reaches : List Operation → View → View → Type 0
  Reaches [] old new = Same old new
  Reaches (o ∷ rest) old new = (mid : View) × Applied o old mid × Reaches rest mid new

  Reaches-eq :
      (ops : List Operation) (a b new : View) → Same a b → Reaches ops a new → Reaches ops b new
  Reaches-eq ops a b new same c = subst (λ v. Reaches ops v new) (fun_ext (λ q. sym (same q))) c

  -- What `execute` says and has done to the files: it commits them all, or none but where a call
  -- has raised after a change, or names a path.
  abbrev pub Ended : List Operation → RecoveryResult → View → View → Type 0
  Ended ops result old new =
      ((result.status ≡ committed) × Reaches ops old new)
      ⊎ (((result.status ≡ rolled_back) ⊎ (result.status ≡ conflict)) × (Same old new ⊎ Strays ops))
      ⊎ ((result.status ≡ rollback_failed) × (p : String) × (result.conflict_paths ≡ p ∷ []))
