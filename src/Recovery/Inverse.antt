-- ===== src/Recovery/Inverse.antt =====
-- What `apply` and `undo_one` do to the files.
use local_book.Base.{
  Bool, Option, Result, String, err, inl, none, not, ok, refl, some, subst, sym, ℕ, ◌&&◌, ◌==◌, ◌≡◌,
  nat_eq, string_eq, option_eq, list_eq,
}
use local_book.Recovery.{
  Bytes, Failure, Fault, Kind, Operation, Vault, create, filled, move, update,
}
use local_book.Recovery.Executor.{apply, check_digest, deleted, digest_in, has_text, lift, undo_one}
use local_book.Recovery.Steps.{
  AppliedAs, CapturedAs, Deleted, IsCaptured, IsLawful, Moved, Same, SteppedAs, View, Written,
  created, moved, uncreated, unmoved, unwritten, written,
}

module _ (canonical : String → String) (digest : Bytes → String) (V : Vault)
    (L : IsLawful canonical digest V) (encode64 : Bytes → String) (size64 : String → ℕ) where
  open L use {contents}

  abbrev pub run : Operation → V.State → Result Fault (Option String) × V.State
  run o s = apply digest encode64 size64 V o s

  create_step :
      (o : Operation) (s : V.State) (k : Option Bytes)
      → o.kind ≡ create
      → o.after_bytes ≡ k
      → SteppedAs create o (contents s) (run o s).0 (contents (run o s).1)
  unfolding apply
  create_step o s none e a = rw (e, apply, a) (inl (λ q. refl))
  create_step o s (some b) e a =
      let ran : run o s ≡ (lift (V.create_bytes o.path b s).0, (V.create_bytes o.path b s).1) =
        rw (e, apply, a) refl in
      subst (λ r. SteppedAs create o (contents s) r.0 (contents r.1)) (sym ran)
        (created canonical digest V L o (contents s) (contents (V.create_bytes o.path b s).1) b
          (V.create_bytes o.path b s).0 a (L.create_lem o.path b s))

  update_step :
      (o : Operation) (s : V.State) (k : Option Bytes)
      → o.kind ≡ update
      → o.after_bytes ≡ k
      → CapturedAs canonical digest update o
      → SteppedAs update o (contents s) (run o s).0 (contents (run o s).1)
  unfolding apply
  update_step o s none e a c = rw (e, apply, a) (inl (λ q. refl))
  update_step o s (some b) e a c =
      let wrote = V.write_bytes o.path b o.before_hash s in
      let ran : run o s ≡ (lift wrote.0, wrote.1) = rw (e, apply, a) refl in
      subst (λ r. SteppedAs update o (contents s) r.0 (contents r.1)) (sym ran)
        (written canonical digest V L o (contents s) (contents wrote.1) b wrote.0 a c
          (L.write_lem o.path b o.before_hash s))

  move_step :
      (o : Operation) (s : V.State) (k : Option String)
      → o.kind ≡ move
      → filled o.source ≡ k
      → SteppedAs move o (contents s) (run o s).0 (contents (run o s).1)
  unfolding apply
  move_step o s none e a = rw (e, apply, a) (inl (λ q. refl))
  move_step o s (some src) e a =
      rw (e, apply, a)
        (moved canonical digest V L o (contents s)
          (contents (V.move_file src o.path o.before_hash s).1) src
          (V.move_file src o.path o.before_hash s).0 a (L.move_lem src o.path o.before_hash s))

  -- A step that is applied is the step that its kind describes, and one that raises changes at
  -- most the files at its paths.
  pub step :
      (o : Operation) (s : V.State) (k : Kind)
      → o.kind ≡ k
      → IsCaptured canonical digest o
      → SteppedAs k o (contents s) (run o s).0 (contents (run o s).1)
  step o s create e c = create_step o s o.after_bytes e refl
  step o s update e c =
      update_step o s o.after_bytes e refl (subst (λ k. CapturedAs canonical digest k o) e c)
  step o s move e c = move_step o s (filled o.source) e refl

  abbrev pub back : Operation → String → V.State → Result Fault (Unit {0}) × V.State
  back o after s = undo_one digest encode64 size64 V o after s

  uncreate :
      (o : Operation) (s s' : V.State) (old : View) (after : String) (u : Unit {0})
      (r : Result Failure (Option String))
      → AppliedAs create o old (contents s)
      → Deleted canonical digest o.path (some after) (contents s) r (contents s')
      → (deleted digest encode64 size64 V o.path (lift r, s')).0 ≡ ok u
      → Same old (contents s')
  uncreate o s s' old after u (ok d) a c h =
      uncreated canonical digest V L o old (contents s) (contents s') (some after) d a c
  uncreate o s s' old after u (err f) a c h = cc

  unwrite :
      (o : Operation) (s s' : V.State) (old : View) (b : Bytes) (after : String) (w : Bool)
      (u : Unit {0}) (r : Result Failure (Option String))
      → AppliedAs update o old (contents s)
      → o.before_bytes ≡ some b
      → Written canonical digest o.path b (some after) (contents s) r (contents s')
      → (check_digest digest encode64 size64 V w (lift r, s')).0 ≡ ok u
      → Same old (contents s')
  unwrite o s s' old b after w u (ok d) a held c h =
      unwritten canonical digest V L o old (contents s) (contents s') b (some after) d a held c
  unwrite o s s' old b after w u (err f) a held c h = cc

  unmove :
      (o : Operation) (s s' : V.State) (old : View) (src after : String) (w : Bool) (u : Unit {0})
      (r : Result Failure (Option String))
      → AppliedAs move o old (contents s)
      → filled o.source ≡ some src
      → Moved canonical digest o.path src (some after) (contents s) r (contents s')
      → (check_digest digest encode64 size64 V w (lift r, s')).0 ≡ ok u
      → Same old (contents s')
  unmove o s s' old src after w u (ok d) a found c h =
      unmoved canonical digest V L o old (contents s) (contents s') src (some after) d a found c
  unmove o s s' old src after w u (err f) a found c h = cc

  check_state :
      (w : Bool) (r : Result Fault (Option String)) (s : V.State)
      → (check_digest digest encode64 size64 V w (r, s)).1 ≡ s
  check_state w (ok d) s = refl
  check_state w (err f) s = refl

  deleted_state :
      (p : String) (r : Result Fault (Option String)) (s : V.State)
      → (deleted digest encode64 size64 V p (r, s)).1 ≡ s
  deleted_state p (ok d) s = refl
  deleted_state p (err f) s = refl

  create_back :
      (o : Operation) (after : String) (s : V.State) (old : View) (u : Unit {0})
      → o.kind ≡ create
      → AppliedAs create o old (contents s)
      → (back o after s).0 ≡ ok u
      → Same old (contents (back o after s).1)
  unfolding undo_one
  create_back o after s old u e a h =
      let r = V.delete_file o.path (some after) s in
      rw (e, undo_one, deleted_state o.path (lift r.0) r.1)
        (uncreate o s r.1 old after u r.0 a (L.delete_lem o.path (some after) s)
          (rw (e, undo_one) at h))

  update_back :
      (o : Operation) (after : String) (s : V.State) (old : View) (u : Unit {0}) (k : Option Bytes)
      → o.kind ≡ update
      → o.before_bytes ≡ k
      → AppliedAs update o old (contents s)
      → (back o after s).0 ≡ ok u
      → Same old (contents (back o after s).1)
  unfolding undo_one
  update_back o after s old u none e held a h = let h' = rw (e, undo_one, held) at h in cc
  update_back o after s old u (some b) e held a h =
      let r = V.write_bytes o.path b (some after) s in
      let w = not (digest_in digest encode64 size64 V (lift r.0, r.1) == o.before_hash) in
      rw (e, undo_one, held, check_state w (lift r.0) r.1)
        (unwrite o s r.1 old b after w u r.0 a held (L.write_lem o.path b (some after) s)
          (rw (e, undo_one, held) at h))

  move_back_step :
      (o : Operation) (after : String) (s : V.State) (old : View) (u : Unit {0}) (k : Option String)
      → o.kind ≡ move
      → filled o.source ≡ k
      → AppliedAs move o old (contents s)
      → (back o after s).0 ≡ ok u
      → Same old (contents (back o after s).1)
  unfolding undo_one
  move_back_step o after s old u none e found a h = let h' = rw (e, undo_one, found) at h in cc
  move_back_step o after s old u (some src) e found a h =
      let r = V.move_file o.path src (some after) s in
      let w =
        has_text digest encode64 size64 V o.before_hash
        && not (digest_in digest encode64 size64 V (lift r.0, r.1) == o.before_hash) in
      rw (e, undo_one, found, check_state w (lift r.0) r.1)
        (unmove o s r.1 old src after w u r.0 a found (L.move_lem o.path src (some after) s)
          (rw (e, undo_one, found) at h))

  -- From the files after a step, an inverse that returns leads back to those before it.
  pub inverse :
      (o : Operation) (after : String) (s : V.State) (old : View) (u : Unit {0}) (k : Kind)
      → o.kind ≡ k
      → AppliedAs k o old (contents s)
      → (back o after s).0 ≡ ok u
      → Same old (contents (back o after s).1)
  inverse o after s old u create e a h = create_back o after s old u e a h
  inverse o after s old u update e a h = update_back o after s old u o.before_bytes e refl a h
  inverse o after s old u move e a h = move_back_step o after s old u (filled o.source) e refl a h
