-- ===== src/Recovery/Steps.antt =====
-- What recovery relies on in the vault, and what one step and its inverse do to the files.
use Prim.{⊥}
use local_book.Base.{
  Bool-cases, Option, Result, String, ap, beq_refl, err, false, if◌then◌else◌, inl, inr, none, ok,
  refl, some, string_eq, sym, ◌==◌, ◌∙◌, ◌≡◌, ◌≢◌, ◌⊎◌, nat_eq, option_eq, list_eq,
}
use local_book.Recovery.{
  Bytes, Failure, Fault, Kind, Operation, Vault, create, filled, move, update,
}
use local_book.Recovery.Executor.{lift}

-- The files as their contents by path.
abbrev pub View : Type 0
View = String → Option Bytes

-- The files with one path set or removed.
abbrev pub set_path : String → Option Bytes → View → View
set_path p b v q = if p == q then b else v q

abbrev pub Same : View → View → Type 0
Same old new = (q : String) → new q ≡ old q

-- Some file is not as before.
abbrev pub Changed : View → View → Type 0
Changed old new = Same old new → ⊥

-- The files are the same but for one path, or for two.
abbrev pub Off : String → View → View → Type 0
Off p old new = (q : String) → (p == q) ≡ false → new q ≡ old q

abbrev pub OffBoth : String → String → View → View → Type 0
OffBoth p r old new = (q : String) → (p == q) ≡ false → (r == q) ≡ false → new q ≡ old q

module _ (canonical : String → String) (digest : Bytes → String) where
  -- An expected digest, in its normal form, is that of the file's bytes.
  pub record Guarded (expected : Option String) (file : Option Bytes) : Type 0 where
    pub bytes : Bytes
    pub text : String
    pub there : file ≡ some bytes
    pub given : expected ≡ some text
    pub equal : canonical text ≡ digest bytes

  -- What a call has found and done if it returns. A call that raises has changed nothing, or, where
  -- it raises after its change, at most the files at its own paths.
  abbrev pub Created : String → Bytes → View → Result Failure (Option String) → View → Type 0
  Created p b old (err f) new = Same old new ⊎ (Changed old new × Off p old new)
  Created p b old (ok d) new =
      (old p ≡ none) × (d ≡ some (digest b)) × Same (set_path p (some b) old) new

  abbrev pub Written :
      String → Bytes → Option String → View → Result Failure (Option String) → View → Type 0
  Written p b expected old (err f) new = Same old new ⊎ (Changed old new × Off p old new)
  Written p b expected old (ok d) new =
      Guarded expected (old p) × (d ≡ some (digest b)) × Same (set_path p (some b) old) new

  abbrev pub Deleted :
      String → Option String → View → Result Failure (Option String) → View → Type 0
  Deleted p expected old (err f) new = Same old new ⊎ (Changed old new × Off p old new)
  Deleted p expected old (ok d) new = Guarded expected (old p) × Same (set_path p none old) new

  abbrev pub Moved :
      String → String → Option String → View → Result Failure (Option String) → View → Type 0
  Moved src dst expected old (err f) new =
      Same old new ⊎ (Changed old new × OffBoth dst src old new)
  Moved src dst expected old (ok d) new =
      (g : Guarded expected (old src)) × (old dst ≡ none)
      × ((src == dst) ≡ false)
      × (d ≡ some (digest g.bytes))
      × Same (set_path dst (old src) (set_path src none old)) new

  -- The laws of the vault over its digest, which is never empty and keeps contents apart.
  pub record IsLawful (V : Vault) : Type 0 where
    pub contents : V.State → View
    pub canonical-digest : (b : Bytes) → canonical (digest b) ≡ digest b
    pub digest_injective : (a b : Bytes) → digest a ≡ digest b → a ≡ b
    pub digest_filled : (b : Bytes) → filled (some (digest b)) ≡ some (digest b)
    pub create_lem :
        (p : String) (b : Bytes) (s : V.State)
        → Created p b (contents s) (V.create_bytes p b s).0 (contents (V.create_bytes p b s).1)
    pub write_lem :
        (p : String) (b : Bytes) (e : Option String) (s : V.State)
        → Written p b e (contents s) (V.write_bytes p b e s).0 (contents (V.write_bytes p b e s).1)
    pub delete_lem :
        (p : String) (e : Option String) (s : V.State)
        → Deleted p e (contents s) (V.delete_file p e s).0 (contents (V.delete_file p e s).1)
    pub move_lem :
        (p q : String) (e : Option String) (s : V.State)
        → Moved p q e (contents s) (V.move_file p q e s).0 (contents (V.move_file p q e s).1)

  -- An update carries the bytes that its expected digest belongs to, as its capture made it.
  abbrev pub CapturedAs : Kind → Operation → Type 0
  CapturedAs update o = (b : Bytes) × (o.before_bytes ≡ some b) × (o.before_hash ≡ some (digest b))
  CapturedAs _ o = Unit {0}

  abbrev pub IsCaptured : Operation → Type 0
  IsCaptured o = CapturedAs o.kind o

-- The path of a step holds the bytes that the step carries.
abbrev Holds : Operation → View → Type 0
Holds o new = (b : Bytes) × (o.after_bytes ≡ some b) × (new o.path ≡ some b)

-- The files before and after a step: a new file with its bytes, other bytes in the place of those
-- before, or a file at its new path, and not at the old one.
abbrev pub AppliedAs : Kind → Operation → View → View → Type 0
AppliedAs create o old new = (old o.path ≡ none) × Holds o new × Off o.path old new
AppliedAs update o old new = (old o.path ≡ o.before_bytes) × Holds o new × Off o.path old new
AppliedAs move o old new =
    (src : String) × (filled o.source ≡ some src)
    × ((src == o.path) ≡ false)
    × (old o.path ≡ none)
    × (old src ≡ new o.path)
    × (new src ≡ none)
    × OffBoth o.path src old new

-- The files after a call that has raised: only those at the paths of its step can have changed.
abbrev pub StrayedAs : Kind → Operation → View → View → Type 0
StrayedAs move o old new =
    (src : String) × (filled o.source ≡ some src) × OffBoth o.path src old new
StrayedAs _ o old new = Off o.path old new

abbrev pub Applied : Operation → View → View → Type 0
Applied o = AppliedAs o.kind o

-- What an applied step hands on as its digest, and what a failed one leaves.
abbrev pub SteppedAs : Kind → Operation → View → Result Fault (Option String) → View → Type 0
SteppedAs k o old (ok d) new = AppliedAs k o old new × (filled d ≢ none)
SteppedAs k o old (err f) new = Same old new ⊎ (Changed old new × StrayedAs k o old new)

apart_back : (a b : String) → (a == b) ≡ false → (b == a) ≡ false
apart_back a b h = elim (Bool-cases (b == a)) [
  | inr e ↦ e
  | inl e ↦ cc ((string_eq.beq_iff a b).1 (sym ((string_eq.beq_iff b a).0 e)), h)
]

module _ (canonical : String → String) (digest : Bytes → String) (V : Vault)
    (L : IsLawful canonical digest V) where
  -- The digest that guarded a file of captured bytes shows that it held them.
  captured_bytes :
      (b : Bytes) (file : Option Bytes)
      → Guarded canonical digest (some (digest b)) file
      → file ≡ some b
  captured_bytes b file g =
      g.there
      ∙ ap some (
          sym (
            L.digest_injective b g.bytes
              (sym (L.canonical-digest b) ∙ ap canonical (cc (g.given)) ∙ g.equal)))

  filled-digest : (d : Option String) (b : Bytes) → d ≡ some (digest b) → filled d ≢ none
  filled-digest d b e h = cc (ap filled e, L.digest_filled b, h)

  pub created :
      (o : Operation) (old new : View) (b : Bytes) (r : Result Failure (Option String))
      → o.after_bytes ≡ some b
      → Created canonical digest o.path b old r new
      → SteppedAs create o old (lift r) new
  created o old new b (ok x) carried (absent, dig, same) = (
    (absent, (b, carried, same o.path ∙ rw (beq_refl o.path) refl), λ q off. same q ∙ rw off refl),
    filled-digest x b dig,
  )
  created o old new b (err f) carried c = c

  pub written :
      (o : Operation) (old new : View) (b : Bytes) (r : Result Failure (Option String))
      → o.after_bytes ≡ some b
      → CapturedAs canonical digest update o
      → Written canonical digest o.path b o.before_hash old r new
      → SteppedAs update o old (lift r) new
  written o old new b (ok x) carried (c, held, guard) (g, dig, same) = (
    (
      captured_bytes c (old o.path) (rw guard at g) ∙ sym held,
      (b, carried, same o.path ∙ rw (beq_refl o.path) refl),
      λ q off. same q ∙ rw off refl,
    ),
    filled-digest x b dig,
  )
  written o old new b (err f) carried k c = c

  pub moved :
      (o : Operation) (old new : View) (src : String) (r : Result Failure (Option String))
      → filled o.source ≡ some src
      → Moved canonical digest src o.path o.before_hash old r new
      → SteppedAs move o old (lift r) new
  moved o old new src (ok x) e (g, absent, apart, dig, same) =
      let off_path : (o.path == src) ≡ false = apart_back src o.path apart in
      (
        (
          src,
          e,
          apart,
          absent,
          sym (same o.path ∙ rw (beq_refl o.path)),
          same src ∙ rw (off_path, beq_refl src) refl,
          λ q off off'. same q ∙ rw (off, off'),
        ),
        filled-digest x g.bytes dig,
      )
  moved o old new src (err f) e (inl same) = inl same
  moved o old new src (err f) e (inr (differ, off)) = inr (differ, (src, e, off))

  -- The inverses: from the files after the step, a call that returns leads back to those before.
  pub uncreated :
      (o : Operation) (old now new : View) (e : Option String) (d : Option String)
      → AppliedAs create o old now
      → Deleted canonical digest o.path e now (ok d) new
      → Same old new
  uncreated o old now new e d (absent, holds, off) (g, same) q = elim (Bool-cases (o.path == q)) [
    | inl h ↦ same q ∙ rw h (cc (absent, (string_eq.beq_iff o.path q).0 h))
    | inr h ↦ same q ∙ rw h (off q h)
  ]

  pub unwritten :
      (o : Operation) (old now new : View) (b : Bytes) (e : Option String) (d : Option String)
      → AppliedAs update o old now
      → o.before_bytes ≡ some b
      → Written canonical digest o.path b e now (ok d) new
      → Same old new
  unwritten o old now new b e d (held, holds, off) before (g, dig, same) q =
      elim (Bool-cases (o.path == q)) [
        | inl h ↦ same q ∙ rw h (cc (held, before, (string_eq.beq_iff o.path q).0 h))
        | inr h ↦ same q ∙ rw h (off q h)
      ]

  pub unmoved :
      (o : Operation) (old now new : View) (src : String) (e : Option String) (d : Option String)
      → AppliedAs move o old now
      → filled o.source ≡ some src
      → Moved canonical digest o.path src e now (ok d) new
      → Same old new
  unmoved o old now new src e d (src', found, apart, absent, carried, gone, off) is_src
        (g, free, apart', dig, same) q =
      let same_src : src' ≡ src = cc (found, is_src) in
      elim (Bool-cases (src == q)) [
        | inl h ↦ same q ∙ rw h (cc (carried, same_src, (string_eq.beq_iff src q).0 h))
        | inr h ↦ elim (Bool-cases (o.path == q)) [
          | inl h' ↦ same q ∙ rw (h, h') (cc (absent, (string_eq.beq_iff o.path q).0 h'))
          | inr h' ↦ same q ∙ rw (h, h') (off q h' (rw same_src h))
        ]
      ]
