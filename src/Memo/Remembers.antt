-- ===== src/Memo/Remembers.antt =====
-- Memo and Lazy of src/memo.h: what a table remembers, and for how long.
use carta_zarr.Base.{
  ◌≡◌, refl, sym, ap, subst, ◌∙◌, Bool, true, false, List, [], ◌∷◌, ◌++◌, append_assoc,
  if◌then◌else◌, Bool-cases, inl, inr, ◌↔◌,
}
use carta_zarr.Memo.{
  get_lazy, answers_of, put_answers, get_or_compute, insert_into, insert, Call, after_call,
  after_calls,
}

-- The answers of one key have grown from `old`, and not at all where the last is an answer to keep.
pub record Grows {V : Type 0} (ask : V → Bool) (old new : List V) : Type 0 where
  pub added : List V
  pub ahead : new ≡ added ++ old
  pub kept : (answer : V) (rest : List V) → old ≡ answer ∷ rest → ask answer ≡ false → added ≡ []

module _ {K V : Type 0} (ask : V → Bool) (same_key : K → K → Bool)
    (lawful : (a b : K) → (same_key a b ≡ true) ↔ (a ≡ b)) where
  Grows-same : (answers : List V) → Grows ask answers answers
  Grows-same answers = record { added = []; ahead = refl; kept = λ a rest e f. refl }

  Grows-trans : (a b c : List V) → Grows ask a b → Grows ask b c → Grows ask a c
  Grows-trans a b c x y = record {
    added = y.added ++ x.added;
    ahead =
        y.ahead ∙ ap (λ (t : List V). y.added ++ t) x.ahead ∙ sym (append_assoc y.added x.added a);
    kept = λ answer rest e f.
        let first = x.kept answer rest e f in
        let same : b ≡ answer ∷ rest = x.ahead ∙ ap (λ (t : List V). t ++ a) first ∙ e in
        let second = y.kept answer rest same f in rw (first, second) refl;
  }

  get_lazy-Grows :
      (computed : V) (answers : List V)
      → Grows ask answers (get_lazy ask same_key computed answers).0
  unfolding get_lazy
  get_lazy-Grows computed [] = record {
    added = computed ∷ [];
    ahead = refl;
    kept = λ a rest e f. absurd cc;
  }
  get_lazy-Grows computed (answer ∷ answers) = elim (Bool-cases (ask answer)) [
    | inl again ↦ rw again (record {
      added = computed ∷ [];
      ahead = refl;
      kept = λ a rest e f. absurd (let one : answer ≡ a = cc in cc);
    })
    | inr keep ↦ rw keep (Grows-same (answer ∷ answers))
  ]

  insert_into-Grows :
      (value : V) (answers : List V) → Grows ask answers (insert_into ask same_key value answers)
  unfolding insert_into
  insert_into-Grows value [] = record {
    added = value ∷ [];
    ahead = refl;
    kept = λ a rest e f. absurd cc;
  }
  insert_into-Grows value (answer ∷ answers) = Grows-same (answer ∷ answers)

  -- A write at one key is read back there, and nowhere else.
  answers_of-put :
      (key j : K) (answers : List V) (entries : List (K × List V))
      → answers_of ask same_key j (put_answers ask same_key key answers entries)
        ≡ (if same_key j key then answers else answers_of ask same_key j entries)
  unfolding answers_of put_answers
  answers_of-put key j answers [] = refl
  answers_of-put key j answers ((k, old) ∷ entries) = elim (Bool-cases (same_key key k)) [
    | inl here ↦
        let e : key ≡ k = (lawful key k).0 here in
        rw here (elim (Bool-cases (same_key j k)) [
          | inl at ↦
              let f : same_key j key ≡ true = subst (λ (x : K). same_key j x ≡ true) (sym e) at in
              rw (at, f) refl
          | inr off ↦
              let f : same_key j key ≡ false =
                subst (λ (x : K). same_key j x ≡ false) (sym e) off in
              rw (off, f) refl
        ])
    | inr there ↦ rw there (elim (Bool-cases (same_key j k)) [
      | inl at ↦ elim (Bool-cases (same_key j key)) [
        | inl y ↦
            let clash : same_key key k ≡ true =
              (lawful key k).1 (sym ((lawful j key).0 y) ∙ (lawful j k).0 at) in
            absurd cc
        | inr n ↦ rw (at, n) refl
      ]
      | inr off ↦ rw off (answers_of-put key j answers entries)
    ])
  ]

  answers_of-Grows :
      (key j : K) (answers : List V) (entries : List (K × List V))
      → Grows ask (answers_of ask same_key key entries) answers
      → Grows ask
          (answers_of ask same_key j entries)
          (answers_of ask same_key j (put_answers ask same_key key answers entries))
  answers_of-Grows key j answers entries g =
      rw (answers_of-put key j answers entries) (elim (Bool-cases (same_key j key)) [
        | inl at ↦
            let e : key ≡ j = sym ((lawful j key).0 at) in
            rw at (subst (λ (x : K). Grows ask (answers_of ask same_key x entries) answers) e g)
        | inr off ↦ rw off (Grows-same (answers_of ask same_key j entries))
      ])

  after_call-Grows :
      (call : Call ask same_key) (j : K) (entries : List (K × List V))
      → Grows ask
          (answers_of ask same_key j entries)
          (answers_of ask same_key j (after_call ask same_key call entries))
  unfolding after_call get_or_compute insert
  after_call-Grows (Call.get key computed) j entries =
      answers_of-Grows key j _ entries
        (get_lazy-Grows computed (answers_of ask same_key key entries))
  after_call-Grows (Call.put key value) j entries =
      answers_of-Grows key j _ entries
        (insert_into-Grows value (answers_of ask same_key key entries))

  calls-Grow :
      (calls : List (Call ask same_key)) (key : K) (entries : List (K × List V))
      → Grows ask
          (answers_of ask same_key key entries)
          (answers_of ask same_key key (after_calls ask same_key calls entries))
  unfolding after_calls
  calls-Grow [] key entries = Grows-same (answers_of ask same_key key entries)
  calls-Grow (call ∷ calls) key entries =
      Grows-trans _ _ _ (after_call-Grows call key entries)
        (calls-Grow calls key (after_call ask same_key call entries))

  get_or_compute_kept :
      (key : K) (computed answer : V) (rest : List V) (entries : List (K × List V))
      → answers_of ask same_key key entries ≡ answer ∷ rest
      → ask answer ≡ false
      → (get_or_compute ask same_key key computed entries).1 ≡ answer
  unfolding get_or_compute get_lazy
  get_or_compute_kept key computed answer rest entries e f = rw (e, f) refl

  -- Whatever is asked for and inserted, the answers that a table has to a key stay where they are, new
  -- ones ahead of them; and where the last of them is an answer about the store, none is added: every
  -- later GetOrCompute of the key hands back that answer.
  pub after_calls-Grows :
      (calls : List (Call ask same_key)) (key : K) (entries : List (K × List V))
      → Grows ask
          (answers_of ask same_key key entries)
          (answers_of ask same_key key (after_calls ask same_key calls entries))
        × ((answer computed : V) (rest : List V)
            → answers_of ask same_key key entries ≡ answer ∷ rest
            → ask answer ≡ false
            → (get_or_compute ask same_key key computed (after_calls ask same_key calls entries)).1
              ≡ answer)
  after_calls-Grows calls key entries =
      let g = calls-Grow calls key entries in
      (
        g,
        λ answer computed rest e f.
            let nothing = g.kept answer rest e f in
            let still =
              g.ahead ∙ ap (λ (t : List V). t ++ answers_of ask same_key key entries) nothing ∙ e in
            get_or_compute_kept key computed answer rest (after_calls ask same_key calls entries)
              still f,
      )
