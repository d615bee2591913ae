-- ===== src/Trust/Approvals/Tracks.antt =====
-- What each write to the store does to the limit and the uses of one request.
use local_agent.Base.{
  refl, ℕ, ◌+◌, ◌≤◌, ◌<◌, String, ◌≡◌, ◌∙◌, ap, ◌⊎◌, inl, inr, Bool, true, false, none, some, arith,
  str_eq, eq_iff, u32_max, unwrap_or, Bool-cases,
}
use local_agent.Base.Assoc.{
  Assoc, lookup, insert, update, retain, only_if, IsMap, lookup-insert, lookup-update,
  lookup-retain, IsMap-insert, IsMap-update, IsMap-retain,
}
use local_agent.Trust.Approvals.{ApprovalRequest, Disk, count_use}
use local_agent.Trust.Approvals.Consume.{requests_of}
use local_agent.Trust.Approvals.Effects.{Leaves, unchanged, changed, emptied}

module _ (id : String) (max : ℕ) where
  -- The request is gone, or it is there with its limit and `u` uses.
  pub record Tracks (u : ℕ) (m : Assoc ApprovalRequest) : Type 0 where
    pub ordered : IsMap m
    pub state :
        (lookup id m ≡ none)
        ⊎ ((req : ApprovalRequest) × (lookup id m ≡ some req)
            × (req.max_uses ≡ some max)
            × (unwrap_or req.uses 0 ≡ u))

  abbrev SameUses : (ApprovalRequest → ApprovalRequest) → Type 0
  SameUses f =
      (req : ApprovalRequest)
      → ((f req).max_uses ≡ req.max_uses) × (unwrap_or (f req).uses 0 ≡ unwrap_or req.uses 0)

  pub Tracks-retain :
      (u : ℕ) (p : ApprovalRequest → Bool) (m : Assoc ApprovalRequest)
      → Tracks u m
      → Tracks u (retain p m)
  Tracks-retain u p m t = record {
    ordered = IsMap-retain p m t.ordered;
    state = elim t.state [
      | inl e ↦ inl (lookup-retain p id m t.ordered ∙ ap (only_if p) e)
      | inr (req, e, l, n) ↦ elim (Bool-cases (p req)) [
        | inl passes ↦
            inr (req, lookup-retain p id m t.ordered ∙ ap (only_if p) e ∙ rw passes, l, n)
        | inr fails ↦ inl (lookup-retain p id m t.ordered ∙ ap (only_if p) e ∙ rw fails)
      ]
    ];
  }

  pub Tracks-update :
      (u : ℕ) (j : String) (f : ApprovalRequest → ApprovalRequest) (m : Assoc ApprovalRequest)
      → SameUses f
      → Tracks u m
      → Tracks u (update j f m)
  Tracks-update u j f m same t = record {
    ordered = IsMap-update j f m t.ordered;
    state = elim t.state [
      | inl e ↦ inl (ground (arith, lookup-update j id f m))
      | inr (req, e, l, n) ↦ elim (Bool-cases (str_eq j id)) [
        | inl here ↦
            inr (f req, ground (arith, lookup-update j id f m), (same req).0 ∙ l, (same req).1 ∙ n)
        | inr other ↦ inr (req, ground (arith, lookup-update j id f m), l, n)
      ]
    ];
  }

  pub Tracks-insert :
      (u : ℕ) (j : String) (v : ApprovalRequest) (m : Assoc ApprovalRequest)
      → str_eq j id ≡ false
      → Tracks u m
      → Tracks u (insert j v m)
  Tracks-insert u j v m fresh t = record {
    ordered = IsMap-insert j v m t.ordered;
    state = elim t.state [
      | inl e ↦ inl (ground (arith, lookup-insert j id v m))
      | inr (req, e, l, n) ↦ inr (req, ground (arith, lookup-insert j id v m), l, n)
    ];
  }

  pub Tracks-Leaves :
      (u : ℕ) (d d' : Disk) (m : Assoc ApprovalRequest)
      → Leaves d d' m
      → Tracks u (requests_of d)
      → Tracks u m
      → Tracks u (requests_of d')
  unfolding lookup
  Tracks-Leaves u d d' m (unchanged same) t t' = rw same t
  Tracks-Leaves u d d' m (changed after) t t' = rw after t'
  Tracks-Leaves u d d' m (emptied empty) t t' = rw empty (record { ordered = tt; state = inl refl })

  -- A use of another request, and a use of this one.
  pub Tracks-take_other :
      (u : ℕ) (j : String) (m : Assoc ApprovalRequest)
      → str_eq j id ≡ false
      → Tracks u m
      → Tracks u (update j count_use m)
  Tracks-take_other u j m other t = record {
    ordered = IsMap-update j count_use m t.ordered;
    state = elim t.state [
      | inl gone ↦ inl (ground (arith, lookup-update j id count_use m))
      | inr (r, at, l, n) ↦ inr (r, ground (arith, lookup-update j id count_use m), l, n)
    ];
  }

  pub Tracks-take_this :
      (u : ℕ) (j : String) (req : ApprovalRequest) (m : Assoc ApprovalRequest)
      → max ≤ u32_max
      → str_eq j id ≡ true
      → lookup j m ≡ some req
      → ((k : ℕ) → req.max_uses ≡ some k → unwrap_or req.uses 0 < k)
      → Tracks u m
      → (u + 1 ≤ max) × Tracks (u + 1) (update j count_use m)
  Tracks-take_this u j req m top here e room t =
      let e' : lookup id m ≡ some req = rw (← (eq_iff j id).0 here) e in
      elim t.state [
        | inl gone ↦ cc
        | inr (r, at, l, n) ↦
            let same : r ≡ req = cc in
            let limit : req.max_uses ≡ some max = rw (← same) l in
            let used : unwrap_or req.uses 0 ≡ u = rw (← same) n in
            let less : unwrap_or req.uses 0 < max = room max limit in
            (
              omega arith,
              record {
                ordered = IsMap-update j count_use m t.ordered;
                state = inr (
                  count_use req,
                  ground (arith, lookup-update j id count_use m),
                  limit,
                  ground arith,
                );
              },
            )
      ]
