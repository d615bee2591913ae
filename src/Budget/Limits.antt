-- ===== src/Budget/Limits.antt =====
-- The charges of src/agent_budget.rs over a run, counter by counter.
use local_agent.Base.{
  ℕ, suc, ◌+◌, ◌≤◌, ◌<◌, String, ◌≡◌, refl, ap, sym, ◌∙◌, ◌⊎◌, inl, inr, Bool, true, false, Option,
  none, some, List, [], ◌∷◌, arith, u64_max, starts_with, Bool-cases, Option-cases, if◌then◌else◌,
}
use local_agent.Types.{
  SideEffects, no_effect, filesystem_read, filesystem_write, shell_exec, network, browser,
  tool_side_effects,
}
use local_agent.Budget.{
  ToolCallBudget, ToolCallBudgetUsage, BudgetExceeded, budget_limit_for_side_effects,
  budget_usage_for_side_effects, increment_budget_usage, check_and_consume_tool_budget,
  check_and_consume_mcp_budget, charge, charge_all, then_mcp, exceeds, add_one,
}

-- The counters: all calls, the calls to a server, and the calls of a kind.
pub data Counter : Type 0 where
  total mcp : Counter
  kind : SideEffects → Counter

abbrev same_kind : SideEffects → SideEffects → Bool
same_kind no_effect no_effect = true
same_kind filesystem_read filesystem_read = true
same_kind filesystem_write filesystem_write = true
same_kind shell_exec shell_exec = true
same_kind network network = true
same_kind browser browser = true
same_kind _ _ = false

same_kind-eq : (k e : SideEffects) → same_kind k e ≡ true → k ≡ e
same_kind-eq k e h = ground arith

abbrev pub limit_of : ToolCallBudget → Counter → ℕ
limit_of budget total = budget.max_total_tool_calls
limit_of budget mcp = budget.max_mcp_calls
limit_of budget (kind e) = budget_limit_for_side_effects budget e

abbrev pub usage_of : ToolCallBudgetUsage → Counter → ℕ
usage_of usage total = usage.total_tool_calls
usage_of usage mcp = usage.mcp_calls
usage_of usage (kind e) = budget_usage_for_side_effects usage e

abbrev pub counts_call : Counter → String → Bool
counts_call total name = true
counts_call mcp name = starts_with name "mcp."
counts_call (kind e) name = same_kind e (tool_side_effects name)

-- How many of the calls the counter is about.
unfoldable pub count_calls : Counter → List String → ℕ
count_calls c [] = 0
count_calls c (name ∷ names) =
    let n = count_calls c names in if counts_call c name then suc n else n

tool_budget-none :
    (b : ToolCallBudget) (u : ToolCallBudgetUsage) (e : SideEffects)
    → (check_and_consume_tool_budget b u e).0 ≡ none
    → (exceeds b.max_total_tool_calls (add_one u.total_tool_calls) ≡ false)
      × (exceeds (budget_limit_for_side_effects b e) (add_one (budget_usage_for_side_effects u e))
          ≡ false)
      × ((check_and_consume_tool_budget b u e).1 ≡ increment_budget_usage u e)
unfolding check_and_consume_tool_budget
tool_budget-none b u e h = ground arith

increment-kind :
    (b : ToolCallBudget) (u : ToolCallBudgetUsage) (e k : SideEffects)
    → 0 < limit_of b (kind k)
    → usage_of (increment_budget_usage u e) (kind k)
      ≡ (if same_kind k e then add_one (usage_of u (kind k)) else usage_of u (kind k))
unfolding increment_budget_usage budget_usage_for_side_effects budget_limit_for_side_effects
increment-kind b u e k pos = ground arith

mcp_budget-none :
    (b : ToolCallBudget) (u : ToolCallBudgetUsage) (m : Bool)
    → (check_and_consume_mcp_budget b u m).0 ≡ none
    → ((m ≡ false) × ((check_and_consume_mcp_budget b u m).1 ≡ u))
      ⊎ ((m ≡ true)
          × (exceeds b.max_mcp_calls (add_one u.mcp_calls) ≡ false)
          × ((check_and_consume_mcp_budget b u m).1 ≡ record u { mcp_calls = add_one u.mcp_calls }))
unfolding check_and_consume_mcp_budget
mcp_budget-none b u m h = elim (Bool-cases m) [
  | inl e ↦ inr (e, ground arith, ground arith)
  | inr e ↦ inl (e, ground arith)
]

add_one-below :
    (n limit : ℕ)
    → 0 < limit
    → limit < u64_max
    → exceeds limit (add_one n) ≡ false
    → (add_one n ≡ n + 1) × (n + 1 ≤ limit)
add_one-below n limit pos below h = ground arith

then_mcp-none :
    (b : ToolCallBudget) (m : Bool) (r : Option BudgetExceeded × ToolCallBudgetUsage)
    → (then_mcp b m r).0 ≡ none
    → (r.0 ≡ none) × (then_mcp b m r ≡ check_and_consume_mcp_budget b r.1 m)
then_mcp-none b m (some e, usage) h = cc
then_mcp-none b m (none, usage) h = (refl, refl)

-- A call that is made has passed both checks, and its usage is theirs.
charge-none :
    (b : ToolCallBudget) (u : ToolCallBudgetUsage) (name : String)
    → (charge b u name).0 ≡ none
    → ((check_and_consume_tool_budget b u (tool_side_effects name)).0 ≡ none)
      × (charge b u name
          ≡ check_and_consume_mcp_budget b
              (increment_budget_usage u (tool_side_effects name))
              (starts_with name "mcp."))
unfolding charge
charge-none b u name h =
    let e = tool_side_effects name in
    let m = starts_with name "mcp." in
    let (passes, eq) = then_mcp-none b m (check_and_consume_tool_budget b u e) h in
    let (_, _, counted) = tool_budget-none b u e passes in
    (passes, eq ∙ ap (λ v. check_and_consume_mcp_budget b v m) counted)

increment-total :
    (u : ToolCallBudgetUsage) (e : SideEffects)
    → (usage_of (increment_budget_usage u e) total ≡ add_one (usage_of u total))
      × (usage_of (increment_budget_usage u e) mcp ≡ usage_of u mcp)
unfolding increment_budget_usage
increment-total u e = ground arith

mcp_budget-keeps :
    (b : ToolCallBudget) (u : ToolCallBudgetUsage) (m : Bool) (k : SideEffects)
    → (usage_of (check_and_consume_mcp_budget b u m).1 total ≡ usage_of u total)
      × (usage_of (check_and_consume_mcp_budget b u m).1 (kind k) ≡ usage_of u (kind k))
unfolding check_and_consume_mcp_budget budget_usage_for_side_effects
mcp_budget-keeps b u m k = ground arith

-- The usage that a call that is made leaves, counter by counter.
Counted : ToolCallBudget → ToolCallBudgetUsage → ToolCallBudgetUsage → Counter → Bool → Type 0
Counted b u after c counts =
    ((counts ≡ false) × (usage_of after c ≡ usage_of u c))
    ⊎ ((counts ≡ true) × (usage_of after c ≡ usage_of u c + 1) × (usage_of u c + 1 ≤ limit_of b c))

charge-Counted :
    (b : ToolCallBudget) (u : ToolCallBudgetUsage) (name : String) (c : Counter)
    → 0 < limit_of b c
    → limit_of b c < u64_max
    → (charge b u name).0 ≡ none
    → Counted b u (charge b u name).1 c (counts_call c name)
unfolding Counted
charge-Counted b u name total pos below h =
    let e = tool_side_effects name in
    let m = starts_with name "mcp." in
    let (passes, eq) = charge-none b u name h in
    let (fits, _, _) = tool_budget-none b u e passes in
    let (plain, most) = add_one-below u.total_tool_calls b.max_total_tool_calls pos below fits in
    inr (
      refl,
      rw (eq, (mcp_budget-keeps b (increment_budget_usage u e) m e).0, (increment-total u e).0)
          plain,
      most,
    )
charge-Counted b u name mcp pos below h =
    let e = tool_side_effects name in
    let (passes, eq) = charge-none b u name h in
    let same = (increment-total u e).1 in
    elim (mcp_budget-none b (increment_budget_usage u e) (starts_with name "mcp.")
      (ap (λ r. r.0) (sym eq) ∙ h)) [
        | inl (off, left) ↦ inl (off, rw (eq, left) same)
        | inr (on, fits, left) ↦
            let (plain, most) =
              add_one-below u.mcp_calls b.max_mcp_calls pos below (rw (← same) fits) in
            inr (on, rw (eq, left, same) plain, most)
      ]
charge-Counted b u name (kind k) pos below h =
    let e = tool_side_effects name in
    let (passes, eq) = charge-none b u name h in
    let (_, fits, _) = tool_budget-none b u e passes in
    let kept = (mcp_budget-keeps b (increment_budget_usage u e) (starts_with name "mcp.") k).1 in
    let counted = increment-kind b u e k pos in
    elim (Bool-cases (same_kind k e)) [
      | inr other ↦ inl (other, rw (eq, kept, counted, other) refl)
      | inl same ↦
          let (plain, most) =
            add_one-below (usage_of u (kind k)) (limit_of b (kind k)) pos below
              (rw (same_kind-eq k e same) fits) in
          inr (same, rw (eq, kept, counted, same) plain, most)
    ]

-- Over any calls that are asked for, from any usage that fits, a counter with a limit (below the
-- largest `usize`, where the count would stand still) holds the calls that are made to it.
pub charge_all-fits :
    (b : ToolCallBudget) (u : ToolCallBudgetUsage) (names : List String) (c : Counter)
    → 0 < limit_of b c
    → limit_of b c < u64_max
    → usage_of u c ≤ limit_of b c
    → count_calls c (charge_all b u names) + usage_of u c ≤ limit_of b c
unfolding charge_all count_calls Counted
charge_all-fits b u [] c pos below fits = omega arith
charge_all-fits b u (name ∷ names) c pos below fits = elim (Option-cases (charge b u name).0) [
  | inr (e, over) ↦ rw over (omega arith)
  | inl made ↦
      let after = (charge b u name).1 in
      rw made (elim (charge-Counted b u name c pos below made) [
        | inl (off, same) ↦
            let ih = charge_all-fits b after names c pos below (rw same fits) in
            rw off (omega arith)
        | inr (on, more, most) ↦
            let ih = charge_all-fits b after names c pos below (rw more most) in rw on (omega arith)
      ])
]
