-- ===== src/Lab0/Cancel/Laws.antt =====
-- lab0/merge_channels.go, `MergeChannelsOrCancel`: what is written by the time the call returns.
use cpsc.Common.{
  ◌≡◌, ◌≢◌, ◌⊎◌, refl, ap, sym, ◌∙◌, subst, Bool, true, false, Option, none, some, List, [], ◌∷◌,
  ◌++◌, append_assoc, arith, Bool-cases, inl, inr,
}
use cpsc.Lab0.Merge.Laws.{Interleaved, both_done, append_a, append_b}
use cpsc.Lab0.Cancel.{
  Phase, checking, receiving, holding, finished, Reader, Merger, merge_channels_or_cancel,
  read_from, Step, on_cancel, on_a, on_b, on_close, on_return, Run, here, next,
}

module _ {ℓ} {T : Type ℓ} where
  -- The values that a goroutine has not written.
  abbrev remaining : List T → Phase T → List T
  remaining vs (holding v) = v ∷ vs
  remaining vs _ = vs

  -- A goroutine returns with values still to come only where the context is done.
  abbrev IsDrained : Bool → List T → Phase T → Type ℓ
  IsDrained done input phase = phase ≡ finished → done ≡ false → input ≡ []

  abbrev Writes : Bool → List T → Phase T → Option (Reader T × List T) → Type ℓ
  Writes done input phase none = Unit
  Writes done input phase (some r) =
      (phase ≢ finished)
      × (remaining input phase ≡ r.1 ++ remaining r.0.input r.0.phase)
      × IsDrained done r.0.input r.0.phase

  read_from-Writes :
      (done quits ready : Bool) (input : List T) (phase : Phase T)
      → Writes done input phase (read_from done quits ready input phase)
  unfolding read_from
  read_from-Writes true quits ready input checking = (λ e. cc, refl, λ e d. cc)
  read_from-Writes false quits ready input checking = (λ e. cc, refl, λ e d. cc)
  read_from-Writes true true ready input receiving = (λ e. cc, refl, λ e d. cc)
  read_from-Writes true false false input receiving = (λ e. cc, refl, λ e d. cc)
  read_from-Writes true false true [] receiving = (λ e. cc, refl, λ e d. refl)
  read_from-Writes true false true (v ∷ input) receiving = (λ e. cc, refl, λ e d. cc)
  read_from-Writes false quits false input receiving = tt
  read_from-Writes false quits true [] receiving = (λ e. cc, refl, λ e d. refl)
  read_from-Writes false quits true (v ∷ input) receiving = (λ e. cc, refl, λ e d. cc)
  read_from-Writes done quits false input (holding v) = tt
  read_from-Writes done quits true input (holding v) = (λ e. cc, refl, λ e d. cc)
  read_from-Writes done quits ready input finished = tt

  finished-remaining :
      (input : List T) (phase : Phase T) → phase ≡ finished → remaining input phase ≡ input
  finished-remaining input checking e = refl
  finished-remaining input receiving e = refl
  finished-remaining input (holding v) e = cc
  finished-remaining input finished e = refl

module _ {ℓ} {T E : Type ℓ} (err : E) where
  -- What goroutine `r` has written of the values `xs` of its channel.
  abbrev IsRead : List T → List T → Bool → Reader T → Type ℓ
  IsRead xs written done r =
      (xs ≡ written ++ remaining r.input r.phase) × IsDrained done r.input r.phase

  -- What the call has returned.
  abbrev Result : Merger T E → Type ℓ
  Result m =
      (r : Option E)
      → m.returned ≡ some r
      → (m.closed ≡ true)
        × (((r ≡ some err) × (m.done ≡ true)) ⊎ ((r ≡ none) × (m.a.input ≡ []) × (m.b.input ≡ [])))

  pub record IsMerge (xs ys : List T) (m : Merger T E) : Type ℓ where
    pub written_a : List T
    pub written_b : List T
    pub whole_a : IsRead xs written_a m.done m.a
    pub whole_b : IsRead ys written_b m.done m.b
    pub merged : Interleaved written_a written_b m.out
    pub ended : m.closed ≡ true → (m.a.phase ≡ finished) × (m.b.phase ≡ finished)
    pub result : Result m

  Step-IsMerge :
      (xs ys : List T) (m n : Merger T E) → Step err m n → IsMerge xs ys m → IsMerge xs ys n
  Step-IsMerge xs ys m n (on_cancel e) h = record {
    written_a = h.written_a;
    written_b = h.written_b;
    whole_a = (h.whole_a.0, λ f d. cc);
    whole_b = (h.whole_b.0, λ f d. cc);
    merged = h.merged;
    ended = h.ended;
    result = λ r e'.
        (let (closed, how) = h.result r e' in
          (closed, elim how [ inl (failed, _) ↦ inl (failed, refl) | inr all ↦ inr all ]));
  }
  Step-IsMerge xs ys m n (on_a {r = r} {vs = vs} quits ready e) h =
      let (busy, left, drained) =
        subst (Writes m.done m.a.input m.a.phase) e
          (read_from-Writes m.done quits ready m.a.input m.a.phase) in
      record {
        written_a = h.written_a ++ vs;
        written_b = h.written_b;
        whole_a = (
          h.whole_a.0
              ∙ ap (λ l. h.written_a ++ l) left
              ∙ sym (append_assoc h.written_a vs (remaining r.input r.phase)),
          drained,
        );
        whole_b = h.whole_b;
        merged = append_a vs h.written_a h.written_b m.out h.merged;
        ended = λ closed. absurd (busy (h.ended closed).0);
        result = λ q e'. absurd (busy (h.ended (h.result q e').0).0);
      }
  Step-IsMerge xs ys m n (on_b {r = r} {vs = vs} quits ready e) h =
      let (busy, left, drained) =
        subst (Writes m.done m.b.input m.b.phase) e
          (read_from-Writes m.done quits ready m.b.input m.b.phase) in
      record {
        written_a = h.written_a;
        written_b = h.written_b ++ vs;
        whole_a = h.whole_a;
        whole_b = (
          h.whole_b.0
              ∙ ap (λ l. h.written_b ++ l) left
              ∙ sym (append_assoc h.written_b vs (remaining r.input r.phase)),
          drained,
        );
        merged = append_b vs h.written_a h.written_b m.out h.merged;
        ended = λ closed. absurd (busy (h.ended closed).1);
        result = λ q e'. absurd (busy (h.ended (h.result q e').0).1);
      }
  Step-IsMerge xs ys m n (on_close fa fb open_out) h = record {
    written_a = h.written_a;
    written_b = h.written_b;
    whole_a = h.whole_a;
    whole_b = h.whole_b;
    merged = h.merged;
    ended = λ closed. (fa, fb);
    result = λ r e. (let (closed, how) = h.result r e in (refl, how));
  }
  Step-IsMerge xs ys m n (on_return closed waiting) h =
      let (fa, fb) = h.ended closed in
      record {
        written_a = h.written_a;
        written_b = h.written_b;
        whole_a = h.whole_a;
        whole_b = h.whole_b;
        merged = h.merged;
        ended = h.ended;
        result = λ r e. elim (Bool-cases m.done) [
          | inl done ↦ (closed, inl (ground (arith, done), done))
          | inr going ↦
              (closed, inr (ground (arith, going), h.whole_a.1 fa going, h.whole_b.1 fb going))
        ];
      }

  initial-IsMerge :
      (done : Bool) (xs ys : List T) → IsMerge xs ys (merge_channels_or_cancel err done xs ys)
  unfolding merge_channels_or_cancel
  initial-IsMerge true xs ys = record {
    written_a = [];
    written_b = [];
    whole_a = (refl, λ e d. cc);
    whole_b = (refl, λ e d. cc);
    merged = both_done;
    ended = λ closed. (refl, refl);
    result = λ r e. (refl, inl (ground arith, refl));
  }
  initial-IsMerge false xs ys = record {
    written_a = [];
    written_b = [];
    whole_a = (refl, λ e d. cc);
    whole_b = (refl, λ e d. cc);
    merged = both_done;
    ended = λ closed. cc;
    result = λ r e. cc;
  }

  Run-IsMerge :
      (done : Bool) (xs ys : List T) (m : Merger T E)
      → Run err (merge_channels_or_cancel err done xs ys) m
      → IsMerge xs ys m
  Run-IsMerge done xs ys _ here = initial-IsMerge done xs ys
  Run-IsMerge done xs ys m (next {m = l} run step) =
      Step-IsMerge xs ys l m step (Run-IsMerge done xs ys l run)

  -- In every interleaving, once the call has returned: `out` is closed, and was written an
  -- interleaving of what was read from the two channels, with no value read and not written. The
  -- call has returned the error of a context that is done, or nil with all values of both channels
  -- read.
  pub Run-returned :
      (done : Bool) (xs ys : List T) (m : Merger T E) (r : Option E)
      → Run err (merge_channels_or_cancel err done xs ys) m
      → m.returned ≡ some r
      → (read_a read_b : List T) × (xs ≡ read_a ++ m.a.input)
        × (ys ≡ read_b ++ m.b.input)
        × Interleaved read_a read_b m.out
        × (m.closed ≡ true)
        × (((r ≡ some err) × (m.done ≡ true)) ⊎ ((r ≡ none) × (m.a.input ≡ []) × (m.b.input ≡ [])))
  Run-returned done xs ys m r run e =
      let h = Run-IsMerge done xs ys m run in
      let (closed, how) = h.result r e in
      let (fa, fb) = h.ended closed in
      (
        h.written_a,
        h.written_b,
        h.whole_a.0 ∙ ap (λ l. h.written_a ++ l) (finished-remaining m.a.input m.a.phase fa),
        h.whole_b.0 ∙ ap (λ l. h.written_b ++ l) (finished-remaining m.b.input m.b.phase fb),
        h.merged,
        closed,
        how,
      )
