-- ===== src/ActionStore.antt =====
-- backend/src/actions/action-store.service.ts over the treasury_actions table of
-- backend/src/database/database.service.ts (its in-memory tables).
pub mod Mirror
pub mod Reached
pub mod Restart
pub mod Loaded
use ethonline.Common.{
  ℕ, ◌+◌, ◌/◌, Bool, false, Option, none, some, List, [], ◌∷◌, leb, keep, if◌then◌else◌,
}
use ethonline.Common.Int.{ℤ, pos}
use ethonline.Common.Text.{Text, codes, truthy}
use ethonline.Common.Dict.{Dict, lookup, insert, values}
use ethonline.Domain.{ActionStatus, same_status, TreasuryAction, ProposeActionDto}

-- `TreasuryActionRow`: the columns, with the numbers and dates already converted.
pub record ActionRow : Type 0 where
  pub id : Text
  pub target : Text
  pub value : Text
  pub call_data : Text
  pub token : Text
  pub recipient : Text
  pub amount : Text
  pub agent_address : Text
  pub justification : Text
  pub status : ActionStatus
  pub risk_score : ℤ
  pub requires_human_approval : Bool
  pub nonce : ℕ
  pub deadline : ℕ
  pub signature : Option Text
  pub tx_hash : Option Text
  pub created_at : ℕ
  pub updated_at : ℕ

-- The service's own maps, and the table that it alone reads and writes.
pub record Store : Type 0 where
  pub actions : Dict TreasuryAction
  pub current_nonce : ℕ
  pub rows : Dict ActionRow

-- `INSERT INTO treasury_actions`
unfoldable pub insert_row : ActionRow → Dict ActionRow → Dict ActionRow
insert_row r rows =
    insert r.id (record r { signature = truthy r.signature; tx_hash = truthy r.tx_hash }) rows

-- A column that an update sets only to a truthy value.
abbrev pub set_truthy : Option Text → Option Text → Option Text
set_truthy none old = old
set_truthy (some []) old = old
set_truthy (some (c ∷ s)) old = some (c ∷ s)

-- `UPDATE treasury_actions SET status = ?, signature = ?, tx_hash = ?, updated_at = ? WHERE id = ?`
unfoldable pub update_row :
    ActionStatus → Option Text → Option Text → ℕ → Text → Dict ActionRow → Dict ActionRow
update_row status signature tx_hash now id rows = elim (lookup id rows) [
  | none ↦ rows
  | some r ↦
      insert id
        (record r {
          status = status;
          signature = set_truthy signature r.signature;
          tx_hash = set_truthy tx_hash r.tx_hash;
          updated_at = now;
        })
        rows
]

-- `SELECT * FROM treasury_actions ORDER BY nonce ASC`: the rows by a stable sort.
unfoldable pub insert_by_nonce : ActionRow → List ActionRow → List ActionRow
insert_by_nonce r [] = r ∷ []
insert_by_nonce r (q ∷ qs) = if leb r.nonce q.nonce then r ∷ q ∷ qs else q ∷ insert_by_nonce r qs

unfoldable pub sort_by_nonce : List ActionRow → List ActionRow
unfolding insert_by_nonce
sort_by_nonce [] = []
sort_by_nonce (r ∷ rs) = insert_by_nonce r (sort_by_nonce rs)

-- `mapRowToAction`
unfoldable pub map_row_to_action : ActionRow → TreasuryAction
map_row_to_action r = record {
  id = r.id;
  target = r.target;
  value = r.value;
  call_data = r.call_data;
  token = r.token;
  recipient = r.recipient;
  amount = r.amount;
  agent_address = r.agent_address;
  justification = r.justification;
  status = r.status;
  nonce = r.nonce;
  deadline = r.deadline;
  risk_score = r.risk_score;
  requires_human_approval = r.requires_human_approval;
  signature = truthy r.signature;
  tx_hash = truthy r.tx_hash;
  created_at = r.created_at;
  updated_at = r.updated_at;
}

-- One round of the loop of `loadFromDatabase`, and the loop.
unfoldable pub load_row : ActionRow → Store → Store
unfolding map_row_to_action
load_row r s = record s {
  actions = insert r.id (map_row_to_action r) s.actions;
  current_nonce = if leb s.current_nonce r.nonce then r.nonce + 1 else s.current_nonce;
}

unfoldable pub load_rows : List ActionRow → Store → Store
unfolding load_row
load_rows [] s = s
load_rows (r ∷ rs) s = load_rows rs (load_row r s)

-- A service that starts over the table: the constructor and `loadFromDatabase`.
unfoldable pub load_from_database : Dict ActionRow → Store
unfolding load_rows sort_by_nonce
load_from_database rows =
    load_rows (sort_by_nonce (values rows))
      (record { actions = []; current_nonce = 1; rows = rows })

-- `x || default` on a string
abbrev pub or_default : Text → Text → Text
or_default [] d = d
or_default (c ∷ s) d = c ∷ s

-- The new action; `now` is in milliseconds.
unfoldable pub new_action : ProposeActionDto → Text → ℕ → ℕ → TreasuryAction
new_action dto id now nonce = record {
  id = id;
  target = dto.target;
  value = or_default dto.value (codes "0");
  call_data = or_default dto.call_data (codes "0x");
  token = dto.token;
  recipient = dto.recipient;
  amount = dto.amount;
  agent_address = dto.agent_address;
  justification = dto.justification;
  status = ActionStatus.pending;
  nonce = nonce;
  deadline = now / 1000 + 3600;
  risk_score = pos 0;
  requires_human_approval = false;
  signature = none;
  tx_hash = none;
  created_at = now;
  updated_at = now;
}

-- The values that `createAction` inserts.
unfoldable pub row_of_action : TreasuryAction → ActionRow
row_of_action a = record {
  id = a.id;
  target = a.target;
  value = a.value;
  call_data = a.call_data;
  token = a.token;
  recipient = a.recipient;
  amount = a.amount;
  agent_address = a.agent_address;
  justification = a.justification;
  status = a.status;
  risk_score = a.risk_score;
  requires_human_approval = a.requires_human_approval;
  nonce = a.nonce;
  deadline = a.deadline;
  signature = truthy a.signature;
  tx_hash = truthy a.tx_hash;
  created_at = a.created_at;
  updated_at = a.updated_at;
}

-- `createAction`; `id` is the generated one, or `customId`.
unfoldable pub create_action : ProposeActionDto → Text → ℕ → Store → TreasuryAction × Store
unfolding new_action row_of_action insert_row
create_action dto id now s =
    let action = new_action dto id now s.current_nonce in
    (
      action,
      record {
        actions = insert id action s.actions;
        current_nonce = s.current_nonce + 1;
        rows = insert_row (row_of_action action) s.rows;
      },
    )

-- `getAction`: the map first, then the table, whose row is cached.
unfoldable pub get_action : Text → Store → Option TreasuryAction × Store
unfolding map_row_to_action
get_action id s = elim (lookup id s.actions) [
  | some a ↦ (some a, s)
  | none ↦ elim (lookup id s.rows) [
    | none ↦ (none, s)
    | some r ↦ (
      some (map_row_to_action r),
      record s { actions = insert r.id (map_row_to_action r) s.actions },
    )
  ]
]

-- `listActions`
unfoldable pub list_actions : Option ActionStatus → Store → List TreasuryAction
list_actions none s = values s.actions
list_actions (some status) s = keep (λ a. same_status a.status status) (values s.actions)

-- `getPendingActions`
unfoldable pub get_pending_actions : Store → List TreasuryAction
unfolding list_actions
get_pending_actions s = list_actions (some ActionStatus.pending) s

-- The `metadata` of `updateStatus`.
pub record Metadata : Type 0 where
  pub signature : Option Text
  pub tx_hash : Option Text

abbrev pub no_metadata : Metadata
no_metadata = record { signature = none; tx_hash = none }

unfoldable pub with_status : ActionStatus → Metadata → ℕ → TreasuryAction → TreasuryAction
with_status status m now a = record a {
  status = status;
  updated_at = now;
  signature = set_truthy m.signature a.signature;
  tx_hash = set_truthy m.tx_hash a.tx_hash;
}

-- `updateStatus`
unfoldable pub update_status :
    Text → ActionStatus → Metadata → ℕ → Store → Option TreasuryAction × Store
unfolding get_action with_status update_row
update_status id status m now s =
    let (found, s') = get_action id s in
    elim found [
      | none ↦ (none, s')
      | some a ↦
          let a' = with_status status m now a in
          (
            some a',
            record s' {
              actions = insert id a' s'.actions;
              rows = update_row a'.status (truthy a'.signature) (truthy a'.tx_hash) now id s'.rows;
            },
          )
    ]

abbrev pub with_risk : ℤ → Bool → TreasuryAction → TreasuryAction
with_risk score human a = record a { risk_score = score; requires_human_approval = human }

-- A caller that holds the object of `createAction` writes its risk fields; the table is not written.
unfoldable pub set_risk : Text → ℤ → Bool → Store → Store
set_risk id score human s = elim (lookup id s.actions) [
  | none ↦ s
  | some a ↦ record s { actions = insert id (with_risk score human a) s.actions }
]

-- `clear`
unfoldable pub clear : Store → Store
clear s = record { actions = []; current_nonce = 1; rows = [] }
