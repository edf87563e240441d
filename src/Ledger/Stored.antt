-- ===== src/Ledger/Stored.antt =====
-- What later operations leave of the ledger: crates/valyria-ledger/src/ledger.rs.
use valyria.Common.{
  lookup-insert, true, inr, inl, is_some, Bool-cases, PartialEq, ◌==◌, option_eq, string_eq, nat_eq,
  findb-append, lookup, ℕ, String, ◌≡◌, ◌∙◌, Bool, Option, none, some, arith,
}
use valyria.Ledger.{
  untouched, with_state, ok, restored_state, err, Result, reverted, push_entry, restate,
  AgentFileState, FileBaseline, LedgerEntry, Ledger, Origin, Stamp, Files, record_baseline,
  set_agent_state, entry, put, retain, append_entry,
}

-- Every content is stored under its hash.
unfoldable pub Sound : {C H : Type 0} ⦃e : PartialEq H⦄ → (C → H) → Ledger C H → Type 0
Sound {C} {H} of_bytes ledger = (h : H) (c : C) → lookup h ledger.blobs ≡ some c → of_bytes c ≡ h

-- The second ledger has the entries and the contents of the first, and maybe more.
pub record Grows {C H : Type 0} ⦃e : PartialEq H⦄ (of_bytes : C → H) (a b : Ledger C H)
    : Type 0 where
  pub entries : (id : ℕ) (r : LedgerEntry H) → entry a id ≡ some r → entry b id ≡ some r
  pub blobs : (h : H) (c : C) → lookup h a.blobs ≡ some c → lookup h b.blobs ≡ some c
  pub sound : Sound of_bytes a → Sound of_bytes b
  pub known :
      (path : String)
      → is_some (lookup path a.baselines) ≡ true
      → is_some (lookup path b.baselines) ≡ true

module _ {C H : Type 0} ⦃e : PartialEq H⦄ (of_bytes : C → H) where
  pub Grows-refl : (a : Ledger C H) → Grows of_bytes a a
  Grows-refl a = record {
    entries = λ id r h. h;
    blobs = λ h c k. k;
    sound = λ s. s;
    known = λ p k. k;
  }

  pub Grows-trans :
      (a b c : Ledger C H) → Grows of_bytes a b → Grows of_bytes b c → Grows of_bytes a c
  Grows-trans a b c x y = record {
    entries = λ id r h. y.entries id r (x.entries id r h);
    blobs = λ h k l. y.blobs h k (x.blobs h k l);
    sound = λ s. y.sound (x.sound s);
    known = λ p k. y.known p (x.known p k);
  }

  pub set_agent_state-Grows :
      (a : Ledger C H) (path : String) (hash : Option H) (state : AgentFileState H)
      → Grows of_bytes a (set_agent_state a path hash state)
  unfolding set_agent_state Sound
  set_agent_state-Grows a path hash state = record {
    entries = λ id r h. h;
    blobs = λ h c k. k;
    sound = λ s. s;
    known = λ p k. ground (
      arith,
      lookup-insert path p (with_state path hash state (lookup path a.baselines)) a.baselines,
      k,
    );
  }

  pub restate-Grows :
      (a : Ledger C H) (path : String) (state : AgentFileState H) (b : Option (FileBaseline H))
      → Grows of_bytes a (restate a path state b)
  unfolding restate Sound
  restate-Grows a path state none = Grows-refl a
  restate-Grows a path state (some b) = record {
    entries = λ id r h. h;
    blobs = λ h c k. k;
    sound = λ s. s;
    known = λ p k.
        ground (arith, lookup-insert path p (record b { agent_state = state }) a.baselines, k);
  }

  pub record_baseline-Grows :
      (a : Ledger C H) (path : String) (hash : Option H)
      → Grows of_bytes a (record_baseline a path hash)
  unfolding record_baseline Sound
  record_baseline-Grows a path hash = record {
    entries = λ id r h. h;
    blobs = λ h c k. k;
    sound = λ s. s;
    known = λ p k. ground (
      arith,
      lookup-insert path p
          (record { path = path; hash_at_task_start = hash; agent_state = untouched }) a.baselines,
      k,
    );
  }

  pub append_entry-Grows :
      (a : Ledger C H) (origin : Origin) (stamp : Stamp) (path : String) (before after : Option H)
      (kept : Bool) (reverts : Option ℕ)
      → Grows of_bytes a (append_entry a origin stamp path before after kept reverts)
  unfolding append_entry Sound
  append_entry-Grows a origin stamp path before after kept reverts = record {
    entries = λ id r h. findb-append (λ (q : LedgerEntry H). q.id == id) a.entries _ ∙ rw h;
    blobs = λ h c k. k;
    sound = λ s. s;
    known = λ p k. k;
  }

  put-Sound :
      (a : Ledger C H) (content : C) → Sound of_bytes a → Sound of_bytes (put of_bytes a content)
  unfolding put Sound
  put-Sound a content s h c k = elim (Bool-cases (is_some (lookup (of_bytes content) a.blobs))) [
    | inl t ↦ s h c (rw t at k)
    | inr f ↦ elim (Bool-cases (of_bytes content == h)) [
      | inl same ↦ ground (arith, rw f at k, e.eq_iff (of_bytes content) h)
      | inr other ↦ s h c (rw other at (rw f at k))
    ]
  ]

  pub retain-Grows :
      (a : Ledger C H) (content : Option C) → Grows of_bytes a (retain of_bytes a content)
  unfolding retain
  retain-Grows a none = Grows-refl a
  retain-Grows a (some content) = record {
    entries = λ id r h. h;
    blobs = λ h c k. kept h c k;
    sound = put-Sound a content;
    known = λ p k. k;
  }
    where
      kept :
          (h : H) (c : C)
          → lookup h a.blobs ≡ some c
          → lookup h (put of_bytes a content).blobs ≡ some c
      kept h c k = ground (arith, k, e.eq_iff (of_bytes content) h)

  pub push_entry-Grows :
      (a : Ledger C H) (origin : Origin) (stamp : Stamp) (path : String) (before : Option H)
      (content : Option C) (after : Option H) (reverts : Option ℕ)
      → Grows of_bytes a (push_entry of_bytes a origin stamp path before content after reverts)
  unfolding push_entry
  push_entry-Grows a origin stamp path before content after reverts =
      Grows-trans a _ _ (retain-Grows a content) (
        append_entry-Grows (retain of_bytes a content) origin stamp path before after
          (is_some content) reverts)

  pub reverted-Grows :
      (a : Ledger C H) (origin : Origin) (stamp : Stamp) (q : LedgerEntry H) (r : Result × Files C)
      → Grows of_bytes a (reverted of_bytes a origin stamp q r).1
  unfolding reverted
  reverted-Grows a origin stamp q (err x, files) = Grows-refl a
  reverted-Grows a origin stamp q (ok, files) =
      Grows-trans a _ _
        (push_entry-Grows a (record origin { tool_invocation_id = none }) stamp q.path q.after_hash
          none q.before_hash (some q.id))
        (restate-Grows _ q.path (restored_state q.before_hash) _)
