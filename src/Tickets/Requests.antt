-- ===== src/Tickets/Requests.antt =====
-- Sequences of requests to the handlers of tickets.service.ts, each with its user and its time. A
-- request that throws leaves the database as it was.
pub mod Handlers
pub mod Safety
pub mod Races
use cursor_multi_agent.Prelude.{ℕ, String, Option, List, [], ◌∷◌, Result, ok, err, ◌>>=◌}
use cursor_multi_agent.Domain.{AuthUser, TicketStatus, TicketPriority}
use cursor_multi_agent.Store.{Db}
use cursor_multi_agent.Sla.Policy.{SlaTables}
use cursor_multi_agent.Tickets.Status.{Transitions}
use cursor_multi_agent.Tickets.Transition.{transition}
use cursor_multi_agent.Tickets.Assignment.{assign}
use cursor_multi_agent.Tickets.Transfer.{transfer}
use cursor_multi_agent.Tickets.Removal.{soft_delete, restore}
use cursor_multi_agent.Tickets.Priority.{change_priority}
use cursor_multi_agent.Tickets.Messages.{AddTicketMessage, add_message}

-- The first argument is the ticket.
pub data Command : Type 0 where
  to_status : String → TicketStatus → Command
  to_assignee : String → Option String → Command
  to_team : String → String → Option String → Command
  to_priority : String → TicketPriority → Command
  message : String → AddTicketMessage → Command
  remove bring_back : String → Command

pub record Request : Type 0 where
  pub user : AuthUser
  pub now : ℕ
  pub command : Command

module _ (tables : SlaTables) (table : Transitions) where
  unfoldable pub handle : AuthUser → ℕ → Command → Db → Result Db
  handle user now (to_status id to) db = do
    done ← transition tables table now id to user db
    ok done.0
  handle user now (to_assignee id assignee) db = assign id assignee user db
  handle user now (to_team id team assignee) db = transfer tables id team assignee user db
  handle user now (to_priority id priority) db = change_priority tables id priority user db
  handle user now (message id payload) db = do
    posted ← add_message tables now id payload user db
    ok posted.db
  handle user now (remove id) db = soft_delete now id user db
  handle user now (bring_back id) db = restore id user db

  abbrev pub committed : Result Db → Db → Db
  committed (ok after) db = after
  committed (err e) db = db

  unfoldable pub serve : List Request → Db → Db
  serve [] db = db
  serve (r ∷ rs) db = serve rs (committed (handle r.user r.now r.command db) db)
