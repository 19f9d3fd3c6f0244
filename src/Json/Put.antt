-- ===== src/Json/Put.antt =====
-- Raw bytes into a sink that has the room: `want`, `put` and a run of stores.
use Prim.Native.Nat.{min}
use libioma.Base.{
  ℕ, zero, suc, ◌+◌, ◌-◌, ◌≤◌, ◌<◌, true, [], ◌∷◌, ◌++◌, ◌≡◌, refl, sym, ap, ◌∙◌, arith, Bytes,
  length, length-append, length-take, length-drop, take, drop, take-append-drop, append_assoc,
  append-nil, Bool-cases, inl, inr, ltb, leb, ◌==◌, if◌then◌else◌,
}
use libioma.Json.Sink.{Sink, SinkLaws}
use libioma.Json.Writer.{Json, Call, ◌>>◌, commit, make_room, want, put_room, put_loop, put}
use libioma.Json.Calls.{store}

module _ {S : Type 0} {k : Sink S} (laws : SinkLaws k) where
  open laws use {
    written, fits, written-commit, written-reserve, room-reserve, failed-fits, fits-commit,
    fits-reserve,
  }

  -- From `s` to `s'` the sink was given `p`, and it will take `left` more.
  pub record Takes (s s' : S) (p : Bytes) (left : ℕ) : Type 0 where
    pub given : written s' ≡ written s ++ p
    pub has_left : fits s' left ≡ true

  -- The call succeeds, gives the sink `p` and changes nothing else.
  abbrev pub Gives : Call S → Json S → Bytes → ℕ → Type 0
  Gives c j p left = (s' : S) × (c j ≡ (record j { sink = s' }, true)) × Takes j.sink s' p left

  -- Room for `n` bytes, nothing given yet.
  abbrev pub Rooms : Call S → Json S → ℕ → ℕ → Type 0
  Rooms c j n m =
      (s' : S) × (c j ≡ (record j { sink = s' }, true))
      × (written s' ≡ written j.sink)
      × (fits s' m ≡ true)
      × (n ≤ k.room s')

  make_room-Rooms :
      (n m : ℕ) (j : Json S)
      → fits j.sink m ≡ true
      → n ≤ m
      → n ≤ 1024
      → k.room j.sink < n
      → Rooms (make_room k n) j n m
  unfolding make_room
  make_room-Rooms n m j f le small full =
      let (ok, f') = fits-reserve j.sink n m f le small full in
      ((k.reserve j.sink n).0, rw ok, written-reserve j.sink n ok, f', room-reserve j.sink n ok)

  pub want-Rooms :
      (n m : ℕ) (j : Json S) → fits j.sink m ≡ true → n ≤ m → n ≤ 1024 → Rooms (want k n) j n m
  unfolding want
  want-Rooms n m j f le small = elim (Bool-cases (leb n (k.room j.sink))) [
    | inl e ↦ (j.sink, rw (e, failed-fits j.sink m f), refl, f, ground arith)
    | inr e ↦ rw e (make_room-Rooms n m j f le small (ground arith))
  ]

  put_room-Rooms :
      (n m : ℕ) (j : Json S) → fits j.sink m ≡ true → 1 ≤ n → n ≤ m → Rooms (put_room k n) j 1 m
  unfolding put_room
  put_room-Rooms n m j f pos le = elim (Bool-cases (k.room j.sink == 0)) [
    | inl e ↦
        let part : ℕ = if ltb n 1024 then n else 1024 in
        let small : part ≤ 1024 = ground arith in
        let less : part ≤ m = ground arith in
        let some_room : 1 ≤ part = ground arith in
        let (s, eq, w, f', r) = make_room-Rooms part m j f less small (ground arith) in
        (s, rw e eq, w, f', omega arith)
    | inr e ↦ (j.sink, rw (e, failed-fits j.sink m f), refl, f, ground arith)
  ]

  pub commit_Takes :
      (s : S) (p : Bytes) (left m : ℕ)
      → m ≡ length p + left
      → fits s m ≡ true
      → length p ≤ k.room s
      → Takes s (k.commit s p) p left
  commit_Takes s p left m e f le = record {
    given = written-commit s p le;
    has_left = fits-commit s p left m e f le;
  }

  -- `want` and the stores behind it.
  pub run_Gives :
      (n : ℕ) (p : Bytes) (left m : ℕ) (j : Json S)
      → n ≡ length p
      → m ≡ n + left
      → n ≤ 1024
      → fits j.sink m ≡ true
      → Gives (want k n >> store k p) j p left
  run_Gives n p left m j same e small f =
      let (s, eq, w, f', r) = want-Rooms n m j f (omega arith) small in
      let t = commit_Takes s p left m (omega arith) f' (omega arith) in
      (k.commit s p, rw eq, record { given = t.given ∙ ap (λ x. x ++ p) w; has_left = t.has_left })

  pub give_nothing : (j : Json S) (left : ℕ) → fits j.sink left ≡ true → Takes j.sink j.sink [] left
  give_nothing j left f = record { given = sym (append-nil (written j.sink)); has_left = f }

  pub nothing_Gives :
      (j : Json S) (left : ℕ) → fits j.sink left ≡ true → Gives (λ j. (j, true)) j [] left
  nothing_Gives j left f = (j.sink, refl, give_nothing j left f)

  put_loop_round :
      (fuel c n : ℕ) (p : Bytes) (j j' : Json S)
      → put_room k (length (c ∷ p)) j ≡ (j', true)
      → n ≡ min (length (c ∷ p)) (k.room j'.sink)
      → put_loop k (suc fuel) (c ∷ p) j
        ≡ put_loop k fuel (drop n (c ∷ p)) (commit k j' (take n (c ∷ p)))
  unfolding put_loop
  put_loop_round fuel c n p j j' e same = rw (same, e)

  -- Two runs of bytes one after the other.
  pub Takes-trans :
      (s t u : S) (p q r : Bytes) (left more : ℕ)
      → p ++ q ≡ r
      → Takes s t p more
      → Takes t u q left
      → Takes s u r left
  Takes-trans s t u p q r left more e a b = record {
    given =
        b.given
        ∙ ap (λ x. x ++ q) a.given
        ∙ append_assoc (written s) p q
        ∙ ap (λ x. written s ++ x) e;
    has_left = b.has_left;
  }

  put_loop-Gives :
      (fuel : ℕ) (p : Bytes) (left m : ℕ) (j : Json S)
      → length p ≤ fuel
      → m ≡ length p + left
      → fits j.sink m ≡ true
      → Gives (put_loop k fuel p) j p left
  put_loop-Gives fuel [] left m j h e f =
      let same : m ≡ left = omega arith in
      (j.sink, unfold put_loop in refl, give_nothing j left (rw (← same) f))
  put_loop-Gives zero (c ∷ p) left m j h e f = absurd (omega arith)
  put_loop-Gives (suc fuel) (c ∷ p) left m j h e f =
      let (s, eq, w, f', r) = put_room-Rooms (length (c ∷ p)) m j f (omega arith) (omega arith) in
      let n : ℕ = min (length (c ∷ p)) (k.room s) in
      let t =
        commit_Takes s (take n (c ∷ p)) (length (c ∷ p) - n + left) m
          (omega (arith, length-take n (c ∷ p))) f' (omega (arith, length-take n (c ∷ p))) in
      let (s', eq', t') =
        put_loop-Gives fuel (drop n (c ∷ p)) left (length (c ∷ p) - n + left)
          (record j { sink = k.commit s (take n (c ∷ p)) }) (omega (arith, length-drop n (c ∷ p)))
          (omega (arith, length-drop n (c ∷ p))) t.has_left in
      let first : Takes j.sink (k.commit s (take n (c ∷ p))) (take n (c ∷ p))
          (length (c ∷ p) - n + left) =
        record { given = t.given ∙ ap (λ x. x ++ take n (c ∷ p)) w; has_left = t.has_left } in
      (
        s',
        put_loop_round fuel c n p j (record j { sink = s }) eq refl ∙ eq',
        Takes-trans j.sink (k.commit s (take n (c ∷ p))) s' (take n (c ∷ p)) (drop n (c ∷ p))
            (c ∷ p) left (length (c ∷ p) - n + left) (take-append-drop n (c ∷ p)) first t',
      )

  -- `put` gives the sink all its bytes, in as many rounds as the sink's room asks for.
  pub put-Gives :
      (p : Bytes) (left m : ℕ) (j : Json S)
      → m ≡ length p + left
      → fits j.sink m ≡ true
      → Gives (put k p) j p left
  unfolding put
  put-Gives p left m j e f = put_loop-Gives (length p) p left m j (omega arith) e f

  -- One call behind another.
  pub then_Gives :
      (c d : Call S) (j : Json S) (p q r : Bytes) (left more : ℕ)
      → p ++ q ≡ r
      → Gives c j p more
      → ((s : S) → fits s more ≡ true → Gives d (record j { sink = s }) q left)
      → Gives (c >> d) j r left
  then_Gives c d j p q r left more e (s, eq, t) next =
      let (s', eq', t') = next s t.has_left in
      (s', rw eq eq', Takes-trans j.sink s s' p q r left more e t t')

  -- Whatever room the sink has, as long as it has enough.
  abbrev pub Writes : Call S → Bytes → Type 0
  Writes c p =
      (left m : ℕ) (j : Json S) → m ≡ length p + left → fits j.sink m ≡ true → Gives c j p left

  pub put-Writes : (p : Bytes) → Writes (put k p) p
  put-Writes p left m j e f = put-Gives p left m j e f

  pub then_Writes :
      (c d : Call S) (p q : Bytes) → Writes c p → Writes d q → Writes (c >> d) (p ++ q)
  then_Writes c d p q a b left m j e f =
      then_Gives c d j p q (p ++ q) left (length q + left) refl
        (a (length q + left) m j (omega (arith, length-append p q)) f)
        (λ s f'. b left (length q + left) (record j { sink = s }) refl f')
