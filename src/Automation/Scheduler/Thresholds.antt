-- ===== src/Automation/Scheduler/Thresholds.antt =====
-- extractThreshold of automation-scheduler.service.ts: the threshold of a rule that holds is reached.
use cursor_multi_agent.Automation.Conditions.{
  malformed, all_of, any_of, field_is, nil, cons, value_number, ticket_to_context,
  whole_hours_since, evaluate_node, Texts, every_node,
}
use mathlib.Core.Path.{subst}
use cursor_multi_agent.Prelude.{
  ℕ, String, ◌≡◌, refl, true, false, Option, none, some, arith, ◌≤◌, ◌+◌, ◌*◌, eq_iff, ◌==◌,
  or_option, Bool-cases, sym, ◌&&◌, ap, inl, ◌∙◌, inr, leb,
}
use cursor_multi_agent.Automation.Conditions.{
  ConditionNode, TextFns, field_is, Scalar, all_of, number, any_of, ConditionNodes, evaluate_single,
  cons, at_least, as_number, Value,
}
use cursor_multi_agent.Automation.Scheduler.{
  RuleThreshold, visit_field, is_hour_field, visit, leb, visit_all, Ticket, hour_ms,
}
use cursor_multi_agent.Store.{Ticket}
use cursor_multi_agent.Sla.Policy.{hour_ms}

-- No condition of the tree is on this field.
unfoldable mutual
  pub Avoids : String → ConditionNode → Type 0
  Avoids name (field_is field operator value) = (field == name) ≡ false
  Avoids name (all_of nodes) = AvoidsAll name nodes
  Avoids name (any_of nodes) = Unit
  Avoids name malformed = Unit

  pub AvoidsAll : String → ConditionNodes → Type 0
  AvoidsAll name nil = Unit
  AvoidsAll name (cons n nodes) = Avoids name n × AvoidsAll name nodes

-- At most so many hours, if any.
abbrev pub IsWithin : ℕ → Option ℕ → Type 0
IsWithin bound none = Unit
IsWithin bound (some hours) = hours ≤ bound

module _ (fns : TextFns) where
  pub at_gte :
      (raw : Scalar) (operator : String) (value : Value)
      → (operator == "gte") ≡ true
      → evaluate_single fns raw operator value
        ≡ at_least fns (as_number fns raw) (value_number fns value)
  unfolding evaluate_single
  at_gte raw operator value e =
      subst
        (λ op.
          evaluate_single fns raw op value
          ≡ at_least fns (as_number fns raw) (value_number fns value))
        (sym ((eq_iff operator "gte").0 e)) refl

  pub hours_kept :
      (field operator : String) (value : Value) (r : RuleThreshold)
      → (is_hour_field field && (operator == "gte")) ≡ false
      → (visit_field fns field operator value r).hours ≡ r.hours
  unfolding visit_field
  hours_kept field operator value r e = ground (arith, e)

  pub hours_read :
      (field operator : String) (value : Value) (r : RuleThreshold)
      → (is_hour_field field && (operator == "gte")) ≡ true
      → (visit_field fns field operator value r).hours ≡ or_option (value_number fns value) r.hours
  unfolding visit_field
  hours_read field operator value r e = ground (arith, e)

  pub at_least-IsWithin :
      (bound : ℕ) (o : Option ℕ) (before : Option ℕ)
      → at_least fns (some bound) o ≡ true
      → IsWithin bound (or_option o before)
  unfolding at_least
  at_least-IsWithin bound (some hours) before h = ground arith
  at_least-IsWithin bound none before h = ground arith

  module _ (ctx : String → Scalar) (bound : ℕ)
      (unassigned_hours : ctx "hoursUnassigned" ≡ number bound) where
    hour_field :
        (field operator : String)
        → (is_hour_field field && (operator == "gte")) ≡ true
        → (field == "hoursSinceActivity") ≡ false
        → (ctx field ≡ number bound) × ((operator == "gte") ≡ true)
    hour_field field operator e avoids = (
      ap ctx ((eq_iff field "hoursUnassigned").0 (ground arith)) ∙ unassigned_hours,
      ground arith,
    )

    field-IsWithin :
        (field operator : String) (value : Value) (r : RuleThreshold)
        → (field == "hoursSinceActivity") ≡ false
        → evaluate_single fns (ctx field) operator value ≡ true
        → IsWithin bound r.hours
        → IsWithin bound (visit_field fns field operator value r).hours
    field-IsWithin field operator value r avoids matched within =
        elim (Bool-cases (is_hour_field field && (operator == "gte"))) [
          | inl e ↦
              let (read, gte) = hour_field field operator e avoids in
              let reached : at_least fns (some bound) (value_number fns value) ≡ true =
                unfold as_number in
                (ap (λ raw. at_least fns (as_number fns raw) (value_number fns value)) (sym read)
                  ∙ sym (at_gte (ctx field) operator value gte)
                  ∙ matched) in
              subst (IsWithin bound) (sym (hours_read field operator value r e))
                (at_least-IsWithin bound (value_number fns value) r.hours reached)
          | inr e ↦ subst (IsWithin bound) (sym (hours_kept field operator value r e)) within
        ]

    mutual
      unfolding Avoids visit visit_all evaluate_node every_node

      node-IsWithin :
          (n : ConditionNode) (r : RuleThreshold)
          → Avoids "hoursSinceActivity" n
          → evaluate_node fns ctx n ≡ true
          → IsWithin bound r.hours
          → IsWithin bound (visit fns n r).hours
      node-IsWithin (field_is field operator value) r avoids matched within =
          field-IsWithin field operator value r avoids matched within
      node-IsWithin (all_of nodes) r avoids matched within =
          nodes-IsWithin nodes r avoids matched within
      node-IsWithin (any_of nodes) r avoids matched within = within
      node-IsWithin malformed r avoids matched within = within

      pub nodes-IsWithin :
          (nodes : ConditionNodes) (r : RuleThreshold)
          → AvoidsAll "hoursSinceActivity" nodes
          → every_node fns ctx nodes ≡ true
          → IsWithin bound r.hours
          → IsWithin bound (visit_all fns nodes r).hours
      nodes-IsWithin nil r avoids matched within = within
      nodes-IsWithin (cons n nodes) r avoids matched within =
          nodes-IsWithin nodes (visit fns n r) avoids.1 (ground (arith, matched))
            (node-IsWithin n r avoids.0 (ground (arith, matched)) within)

pub context_hours :
    (now : ℕ) (t : Ticket) (x : Texts)
    → t.assignee_id ≡ none
    → ticket_to_context now t x "hoursUnassigned" ≡ number (whole_hours_since now t.created_at)
unfolding ticket_to_context
context_hours now t x free = rw free

pub hours_since :
    (hours now created : ℕ)
    → created ≤ now
    → hours ≤ whole_hours_since now created
    → created + hours * hour_ms ≤ now
hours_since hours now created ordered within = omega (arith, ordered, within)

pub leb_of_le : (a b : ℕ) → a ≤ b → leb a b ≡ true
leb_of_le a b h = ground (arith, h)
