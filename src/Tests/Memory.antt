-- ===== src/Tests/Memory.antt =====
-- A vault that keeps its files in memory, and a digest that keeps contents apart.
use Prim.Native.String.{[] as nil, ◌∷◌ as ◌::◌}
use Prim.Native.Char.{char, code}
use local_book.Base.{
  Bool, Bool-cases, Option, Result, String, [], ap, arith, beq_refl, eqb, err, false, if◌then◌else◌,
  inl, inr, none, not, ok, refl, some, string_eq, suc, sym, true, zero, ℕ, ◌&&◌, ◌+◌, ◌==◌, ◌∙◌,
  ◌∷◌, ◌≡◌, ◌≢◌, nat_eq, option_eq, list_eq,
}
use local_book.Recovery.{Bytes, Failure, Vault, filled, not_found, other_failure}
use local_book.Recovery.Steps.{
  Changed, Created, Deleted, Guarded, IsLawful, Moved, View, Written, set_path,
}

-- A number as so many strokes and an end.
abbrev tally : ℕ → String → String
tally zero t = char 46 tt :: t
tally (suc n) t = char 124 tt :: tally n t

abbrev pub digest : Bytes → String
digest [] = "#"
digest (b ∷ rest) = tally b (digest rest)

unfoldable pub read : ℕ → String → Bytes
read n nil = []
read n (c :: t) =
    let more = read 0 t in
    let strokes = read (n + 1) t in
    if eqb (code c) 124 then strokes else if eqb (code c) 46 then n ∷ more else []

read-tally : (n b : ℕ) (t : String) → read n (tally b t) ≡ (n + b) ∷ read 0 t
unfolding read
read-tally n zero t = ground arith
read-tally n (suc b) t = read-tally (n + 1) b t ∙ ground arith

read-digest : (bytes : Bytes) → read 0 (digest bytes) ≡ bytes
unfolding read
read-digest [] = refl
read-digest (b ∷ rest) =
    let start : 0 + b ≡ b = omega arith in
    read-tally 0 b (digest rest) ∙ rw (start, read-digest rest) refl

pub digest_injective : (a b : Bytes) → digest a ≡ digest b → a ≡ b
digest_injective a b h = sym (read-digest a) ∙ ap (read 0) h ∙ read-digest b

digest_some : (b : Bytes) → digest b ≢ ""
digest_some [] h = cc h
digest_some (zero ∷ rest) h = cc h
digest_some (suc b ∷ rest) h = cc h

pub filled-digest : (b : Bytes) → filled (some (digest b)) ≡ some (digest b)
filled-digest b = elim (Bool-cases (digest b == "")) [
  | inl e ↦ elim (digest_some b ((string_eq.beq_iff (digest b) "").0 e)) [ ]
  | inr e ↦ rw e refl
]

-- The expected digest is that of the file.
abbrev matches : Option String → Option Bytes → Bool
matches (some t) (some b) = t == digest b
matches _ _ = false

abbrev absent : Option Bytes → Bool
absent none = true
absent (some b) = false

abbrev Reply : Type 0
Reply = Result Failure (Option String) × View

-- The creation of `late.md` raises after it has created the file.
abbrev create_file : String → Bytes → View → Reply
create_file p b s =
    if absent (s p)
    then (if p == "late.md" then err other_failure else ok (some (digest b)), set_path p (some b) s)
    else (err other_failure, s)

abbrev write_file : String → Bytes → Option String → View → Reply
write_file p b e s =
    if matches e (s p)
    then (ok (some (digest b)), set_path p (some b) s)
    else (err other_failure, s)

abbrev remove_file : String → Option String → View → Reply
remove_file p e s = if matches e (s p) then (ok none, set_path p none s) else (err other_failure, s)

abbrev held : Option Bytes → Bytes
held none = []
held (some b) = b

abbrev rename_file : String → String → Option String → View → Reply
rename_file p q e s =
    if matches e (s p) && absent (s q) && not (p == q)
    then (ok (some (digest (held (s p)))), set_path q (s p) (set_path p none s))
    else (err other_failure, s)

abbrev read_file : String → View → Result Failure (Bytes × String)
read_file p s = elim (s p) [ none ↦ err not_found | some b ↦ ok (b, digest b) ]

abbrev pub memory : Vault
memory = record {
  State = View;
  read_bytes = read_file;
  create_bytes = create_file;
  write_bytes = write_file;
  delete_file = remove_file;
  move_file = rename_file;
}

abbrev pub same_text : String → String
same_text t = t

matches-Guarded :
    (e : Option String) (k : Option Bytes) → matches e k ≡ true → Guarded same_text digest e k
matches-Guarded (some t) (some b) h = record {
  bytes = b;
  text = t;
  there = refl;
  given = refl;
  equal = (string_eq.beq_iff t (digest b)).0 h;
}
matches-Guarded (some t) none h = cc h
matches-Guarded none k h = cc h

absent-none : (k : Option Bytes) → absent k ≡ true → k ≡ none
absent-none none h = refl
absent-none (some b) h = cc h

file_made : (p : String) (b : Bytes) (s : View) → s p ≡ none → Changed s (set_path p (some b) s)
file_made p b s gone same =
    let there : set_path p (some b) s p ≡ some b = rw (beq_refl p) refl in
    cc (sym there ∙ same p ∙ gone)

pub create_law :
    (p : String) (b : Bytes) (s : View)
    → Created same_text digest p b s (create_file p b s).0 (create_file p b s).1
create_law p b s = elim (Bool-cases (absent (s p))) [
  | inl e ↦ elim (Bool-cases (p == "late.md")) [
    | inl late ↦ rw (e, late) (inr (file_made p b s (absent-none (s p) e), λ q off. rw off refl))
    | inr soon ↦ rw (e, soon) (absent-none (s p) e, refl, λ q. refl)
  ]
  | inr e ↦ rw e (inl (λ q. refl))
]

pub write_law :
    (p : String) (b : Bytes) (e : Option String) (s : View)
    → Written same_text digest p b e s (write_file p b e s).0 (write_file p b e s).1
write_law p b e s = elim (Bool-cases (matches e (s p))) [
  | inl h ↦ rw h (matches-Guarded e (s p) h, refl, λ q. refl)
  | inr h ↦ rw h (inl (λ q. refl))
]

pub delete_law :
    (p : String) (e : Option String) (s : View)
    → Deleted same_text digest p e s (remove_file p e s).0 (remove_file p e s).1
delete_law p e s = elim (Bool-cases (matches e (s p))) [
  | inl h ↦ rw h (matches-Guarded e (s p) h, λ q. refl)
  | inr h ↦ rw h (inl (λ q. refl))
]

pub move_law :
    (p q : String) (e : Option String) (s : View)
    → Moved same_text digest p q e s (rename_file p q e s).0 (rename_file p q e s).1
move_law p q e s = elim (Bool-cases (matches e (s p) && absent (s q) && not (p == q))) [
  | inl h ↦
      let guard = matches-Guarded e (s p) (ground arith) in
      rw h (
        guard,
        absent-none (s q) (ground arith),
        ground arith,
        ap (λ k. some (digest (held k))) guard.there,
        λ x. refl,
      )
  | inr h ↦ rw h (inl (λ x. refl))
]

abbrev pub memory_laws : IsLawful same_text digest memory
memory_laws = record {
  contents = λ s. s;
  canonical-digest = λ b. refl;
  digest_injective = digest_injective;
  digest_filled = filled-digest;
  create_lem = create_law;
  write_lem = write_law;
  delete_lem = delete_law;
  move_lem = move_law;
}
