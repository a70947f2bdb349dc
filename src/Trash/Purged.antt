-- ===== src/Trash/Purged.antt =====
-- What a purge that succeeds has taken out of the index.
use local_book.Base.{
  All, Bool, Bool-cases, List, Option, Result, [], ap, arith, err, false, inl, inr, length, none,
  ok, refl, some, subst, suc, sym, true, ℕ, ◌&&◌, ◌+◌, ◌∙◌, ◌∷◌, ◌≡◌, ◌≤◌, ◌⊎◌, nat_eq, string_eq,
  option_eq, list_eq,
}
use local_book.Paths.{Text}
use local_book.Trash.{Disk, TrashFault, TrashItem}
use local_book.Trash.Bin.{
  Bin, Moves, commit, detach_all, has_room, is_bad_limit, is_expired, purge_expired, purge_items,
  purge_prefix, split_expired, with_items,
}

-- Two lists are the parts of a third, each in its order.
abbrev pub Parts : List TrashItem → List TrashItem → List TrashItem → Type 0
Parts kept gone [] = (kept ≡ []) × (gone ≡ [])
Parts kept gone (i ∷ rest) =
    ((more : List TrashItem) × (kept ≡ i ∷ more) × Parts more gone rest)
    ⊎ ((more : List TrashItem) × (gone ≡ i ∷ more) × Parts kept more rest)

-- No more than the limit, where there is one.
abbrev pub FitsLimit : Option ℕ → ℕ → Type 0
FitsLimit none n = Unit {0}
FitsLimit (some limit) n = n ≤ limit

-- Something that has expired was kept only because the limit had been reached.
abbrev pub IsDone : (TrashItem → Bool) → Option ℕ → List TrashItem → ℕ → Type 0
IsDone test limit kept n = All (λ i. test i ≡ false) kept ⊎ (limit ≡ some n)

-- What a split of the entries is, with how many had been taken before.
abbrev IsDivided : (TrashItem → Bool) → Option ℕ → ℕ → List TrashItem → Type 0
IsDivided test limit taken items =
    let (kept, gone) = split_expired test limit taken items in
    Parts kept gone items
    × All (λ i. test i ≡ true) gone
    × FitsLimit limit (taken + length gone)
    × IsDone test limit kept (taken + length gone)

and_left : (a b : Bool) → (a && b) ≡ true → a ≡ true
and_left true b h = refl
and_left false b h = cc h

and_right : (a b : Bool) → (a && b) ≡ true → b ≡ true
and_right true b h = h
and_right false b h = cc h

and_rest : (a b : Bool) → a ≡ true → (a && b) ≡ false → b ≡ false
and_rest true b h e = e
and_rest false b h e = cc h

room_after :
    (limit : Option ℕ) (taken : ℕ) → has_room limit taken ≡ true → FitsLimit limit (taken + 1)
room_after none taken h = tt
room_after (some l) taken h = ground arith

plus_none : (n : ℕ) → n ≡ n + 0
plus_none n = omega arith

shift : (taken n : ℕ) → taken + 1 + n ≡ taken + suc n
shift taken n = omega arith

room_full :
    (limit : Option ℕ) (taken n : ℕ)
    → has_room limit taken ≡ false
    → FitsLimit limit taken
    → FitsLimit limit (taken + n)
    → limit ≡ some (taken + n)
room_full none taken n h low high = cc h
room_full (some l) taken n h low high =
    let same : l ≡ taken + n = ground (arith, h, low, high) in ap some same

split_expired-IsDivided :
    (test : TrashItem → Bool) (limit : Option ℕ) (taken : ℕ) (items : List TrashItem)
    → FitsLimit limit taken
    → IsDivided test limit taken items
unfolding split_expired
split_expired-IsDivided test limit taken [] fits =
    ((refl, refl), tt, subst (FitsLimit limit) (plus_none taken) fits, inl tt)
split_expired-IsDivided test limit taken (i ∷ rest) fits =
    elim (Bool-cases (test i && has_room limit taken)) [
      | inl e ↦
          (let (kept, gone) = split_expired test limit (taken + 1) rest in
            let (parts, all_gone, fit, done) =
              split_expired-IsDivided test limit (taken + 1) rest
                (room_after limit taken (and_right (test i) (has_room limit taken) e)) in
            let size = shift taken (length gone) in
            rw (split_expired, e)
              (
                inr (gone, refl, parts),
                (and_left (test i) (has_room limit taken) e, all_gone),
                subst (FitsLimit limit) size fit,
                subst (IsDone test limit kept) size done,
              ))
      | inr e ↦
          let (kept, gone) = split_expired test limit taken rest in
          let (parts, all_gone, fit, done) = split_expired-IsDivided test limit taken rest fits in
          rw (split_expired, e)
            (
              inl (kept, refl, parts),
              all_gone,
              fit,
              elim (Bool-cases (test i)) [
                | inl yes_expired ↦ inr (
                    room_full limit taken (length gone)
                      (and_rest (test i) (has_room limit taken) yes_expired e) fits fit)
                | inr fresh ↦ elim done [
                  | inl all_fresh ↦ inl (fresh, all_fresh)
                  | inr full ↦ inr full
                ]
              ],
            )
    ]

-- How many entries a purge starts with.
starts : (limit : Option ℕ) → FitsLimit limit 0
starts none = tt
starts (some l) = omega arith

module _ (is_alnum : ℕ → Bool) (hex : ℕ → Text) (D : Disk)
    (writable : List TrashItem → D.State → Bool) where
  commit-ok :
      (kept gone : List TrashItem) (b : Bin D)
      (end : Result TrashFault (Unit {0}) × Moves × ℕ × D.State) (n : ℕ)
      → (commit is_alnum hex D writable purge_prefix kept (length gone) b end).0 ≡ ok n
      → (n ≡ length gone)
        × ((commit is_alnum hex D writable purge_prefix kept (length gone) b end).1.index
            ≡ some kept)
  commit-ok kept gone b (err f, moved, m, s) n h = cc h
  commit-ok kept gone b (ok u, moved, m, s) n h = elim (Bool-cases (writable kept s)) [
    | inl e ↦ rw e (cc (rw e at h), refl)
    | inr e ↦ cc (rw e at h)
  ]

  -- Nothing expired: then all is kept.
  all_kept : (kept items : List TrashItem) → Parts kept [] items → kept ≡ items
  all_kept kept [] (k, g) = k
  all_kept kept (i ∷ rest) (inl (more, k, parts)) = k ∙ ap (λ xs. i ∷ xs) (all_kept more rest parts)
  all_kept kept (i ∷ rest) (inr (more, g, parts)) = cc g

  purge_items-ok :
      (items kept gone : List TrashItem) (b : Bin D) (n : ℕ)
      → b.index ≡ some items
      → Parts kept gone items
      → (purge_items is_alnum hex D writable (kept, gone) b).0 ≡ ok n
      → (n ≡ length gone)
        × ((purge_items is_alnum hex D writable (kept, gone) b).1.index ≡ some kept)
  unfolding purge_items
  purge_items-ok items kept [] b n read parts h =
      (cc h, read ∙ ap some (sym (all_kept kept items parts)))
  purge_items-ok items kept (g ∷ gone) b n read parts h =
      commit-ok kept (g ∷ gone) b (detach_all is_alnum hex D writable (g ∷ gone) [] b.next b.disk) n
        h

  -- What a purge takes out: where it succeeds on an index, the entries that are left and those that
  -- are gone make up the old index, each in its order; it returns the number of those gone, which all
  -- have expired and are no more than the limit; and an expired entry is left only if the limit has
  -- been reached.
  pub purge_expired-purged :
      (retention_days now : ℕ) (limit : Option ℕ) (b : Bin D) (items : List TrashItem) (n : ℕ)
      → b.index ≡ some items
      → (purge_expired is_alnum hex D writable retention_days now limit b).0 ≡ ok n
      → let test = is_expired retention_days now in
        let after = (purge_expired is_alnum hex D writable retention_days now limit b).1 in
        (kept : List TrashItem) × (gone : List TrashItem) × (after.index ≡ some kept)
        × Parts kept gone items
        × (n ≡ length gone)
        × All (λ i. test i ≡ true) gone
        × FitsLimit limit n
        × IsDone test limit kept n
  unfolding purge_expired
  purge_expired-purged retention_days now limit b items n read h =
      elim (Bool-cases (is_bad_limit limit)) [
        | inl bad ↦ cc (rw bad at h)
        | inr fine ↦
            let test = is_expired retention_days now in
            let (kept, gone) = split_expired test limit 0 items in
            let (parts, all_gone, fit, done) =
              split_expired-IsDivided test limit 0 items (starts limit) in
            let step : List TrashItem → Result TrashFault ℕ × Bin D =
              λ xs. purge_items is_alnum hex D writable (split_expired test limit 0 xs) b in
            let moved = ap (λ o. with_items is_alnum hex D writable o b step) read in
            let (count, index) =
              purge_items-ok items kept gone b n read parts
                (sym (ap (λ r. r.0) moved) ∙ (rw fine at h)) in
            let size : 0 + length gone ≡ n = omega (arith, count) in
            rw fine (
              kept,
              gone,
              ap (λ r. r.1.index) moved ∙ index,
              parts,
              count,
              all_gone,
              subst (FitsLimit limit) size fit,
              subst (IsDone test limit kept) size done,
            )
      ]
