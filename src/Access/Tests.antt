-- ===== src/Access/Tests.antt =====
-- Readings of the filter and of the condition that meet the semantics assumed of Prisma and of the
-- database, and the theorems on access at concrete users and tickets.
use Prim.Native.String.{◌++◌}
use cursor_multi_agent.Prelude.{
  ◌≡◌, refl, Bool, true, false, ◌&&◌, ◌||◌, Option, none, some, [], ◌∷◌, ◌==◌, ◌===◌, is_none, ◌⊎◌,
  ok, err, plain_error, ap,
}
use cursor_multi_agent.Domain.{AuthUser, agent, owner}
use cursor_multi_agent.Access.{
  AccessTicket, has_grant, operational_team_ids, administered_team, can_view_ticket,
  can_write_ticket, can_post_message, is_peer_agent,
}
use cursor_multi_agent.Access.Filter.{
  Where, Wheres, everything, requester_is, assigned_team_is, granted_to, not_deleted, all_of,
  any_of, every_clause, some_clause, PrismaSemantics, build_ticket_access_filter,
}
use cursor_multi_agent.Access.Filter.Laws.{filter-eq-can_view}
use cursor_multi_agent.Access.Sql.{
  Sql, Sqls, sql_true, requester_eq, team_eq, grant_exists, deleted_is_null, or_sql, and_sql,
  join_or, or_null, and_null, eq_null, join_null, SqlSemantics, access_condition_sql, is_alias,
}
use cursor_multi_agent.Access.Sql.Laws.{kept, sql-selects-filter}

-- A reading of `where` inputs.
mutual
  reads : AccessTicket → Where → Bool
  reads t everything = true
  reads t (requester_is s) = t.requester_id == s
  reads t (assigned_team_is s) = t.assigned_team_id === s
  reads t (granted_to s) = has_grant t s
  reads t not_deleted = is_none t.deleted_at
  reads t (all_of ws) = reads_every t ws
  reads t (any_of ws) = reads_some t ws

  reads_every : AccessTicket → Wheres → Bool
  reads_every t Wheres.nil = true
  reads_every t (Wheres.cons w ws) = reads t w && reads_every t ws

  reads_some : AccessTicket → Wheres → Bool
  reads_some t Wheres.nil = false
  reads_some t (Wheres.cons w ws) = reads t w || reads_some t ws

reads_every_lem :
    (t : AccessTicket) (ws : Wheres) → reads_every t ws ≡ every_clause (λ w. reads t w) ws
unfolding reads reads_every
reads_every_lem t Wheres.nil = refl
reads_every_lem t (Wheres.cons w ws) = ap (λ b. reads t w && b) (reads_every_lem t ws)

reads_some_lem :
    (t : AccessTicket) (ws : Wheres) → reads_some t ws ≡ some_clause (λ w. reads t w) ws
unfolding reads reads_some
reads_some_lem t Wheres.nil = refl
reads_some_lem t (Wheres.cons w ws) = ap (λ b. reads t w || b) (reads_some_lem t ws)

abbrev prisma : PrismaSemantics
unfolding reads
prisma = record {
  matches = λ w t. reads t w;
  at_everything = λ t. refl;
  at_requester = λ s t. refl;
  at_team = λ s t. refl;
  at_grant = λ s t. refl;
  at_live = λ t. refl;
  at_and = λ ws t. reads_every_lem t ws;
  at_or = λ ws t. reads_some_lem t ws;
}

-- A reading of SQL conditions.
mutual
  evaluates : AccessTicket → Sql → Option Bool
  evaluates t sql_true = some true
  evaluates t (requester_eq a s) = some (t.requester_id == s)
  evaluates t (team_eq a s) = eq_null t.assigned_team_id s
  evaluates t (grant_exists a s) = some (has_grant t s)
  evaluates t (deleted_is_null a) = some (is_none t.deleted_at)
  evaluates t (or_sql c d) = or_null (evaluates t c) (evaluates t d)
  evaluates t (and_sql c d) = and_null (evaluates t c) (evaluates t d)
  evaluates t (join_or cs) = evaluates_join t cs

  evaluates_join : AccessTicket → Sqls → Option Bool
  evaluates_join t Sqls.nil = some false
  evaluates_join t (Sqls.cons c Sqls.nil) = evaluates t c
  evaluates_join t (Sqls.cons c (Sqls.cons d cs)) =
      or_null (evaluates t c) (evaluates_join t (Sqls.cons d cs))

evaluates_join_lem :
    (t : AccessTicket) (cs : Sqls) → evaluates_join t cs ≡ join_null (λ c. evaluates t c) cs
unfolding evaluates evaluates_join
evaluates_join_lem t Sqls.nil = refl
evaluates_join_lem t (Sqls.cons c Sqls.nil) = refl
evaluates_join_lem t (Sqls.cons c (Sqls.cons d cs)) =
    ap (or_null (evaluates t c)) (evaluates_join_lem t (Sqls.cons d cs))

abbrev database : SqlSemantics
unfolding evaluates
database = record {
  value = λ c t. evaluates t c;
  at_true = λ t. refl;
  at_requester = λ a s t. refl;
  at_team = λ a s t. refl;
  at_grant = λ a s t. refl;
  at_deleted = λ a t. refl;
  at_or = λ c d t. refl;
  at_and = λ c d t. refl;
  at_join = λ cs t. evaluates_join_lem t cs;
}

abbrev ann : AuthUser
ann = record {
  id = "ann";
  role = agent;
  team_id = some "it";
  primary_team_id = none;
  member_team_ids = some ("it" ∷ "hr" ∷ []);
}

abbrev boss : AuthUser
boss = record ann { id = "boss"; role = owner; member_team_ids = none }

abbrev printer : AccessTicket
printer = record {
  requester_id = "eve";
  assigned_team_id = some "it";
  assignee_id = some "bob";
  access_grants = none;
  deleted_at = none;
}

abbrev own_printer : AccessTicket
own_printer = record printer { assignee_id = some "ann" }

filter-eq-can_view_example :
    prisma.matches (build_ticket_access_filter ann true) printer ≡ can_view_ticket ann printer
filter-eq-can_view_example = filter-eq-can_view prisma printer ann true refl

sql-selects-filter_example :
    ((is_alias "t" ≡ true)
      × (c : Sql) × (access_condition_sql ann "t" false ≡ ok c)
      × (kept (database.value c printer)
          ≡ prisma.matches (build_ticket_access_filter ann false) printer))
    ⊎ ((is_alias "t" ≡ false)
        × (access_condition_sql ann "t" false
            ≡ err (plain_error ("Invalid SQL alias: \"" ++ ("t" ++ "\"")))))
sql-selects-filter_example = sql-selects-filter database prisma printer ann "t" false

access : Unit {0}
unfolding can_view_ticket can_write_ticket can_post_message is_peer_agent operational_team_ids
    administered_team
access = tt
