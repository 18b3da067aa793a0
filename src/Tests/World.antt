-- ===== src/Tests/World.antt =====
-- A run of the verification of the approver: the World App confirms, the portal accepts, the Ledger
-- signs.
use ethonline.Common.{◌≡◌, refl, true, false, none, some, [], ◌∷◌, arith}
use ethonline.Common.Text.{Text, codes, text_eq, to_lower}
use ethonline.Common.Dict.{lookup, insert}
use ethonline.Common.Results.{ok}
use ethonline.X402.Ethers.{Ethers}
use ethonline.World.Bindings.{
  Binding, binding_of, binding_with, insert_binding, assert_verified_for_approval,
}
use ethonline.World.Sessions.{
  OrbStatus, Phase, Session, IdkitResult, VerifyResponse, PollResult, tick, poll_returns,
  verify_returns, check_proof, check_response, orb_succeeds, same_option, is_bound_elsewhere,
  bind_message_of, is_over, is_verified,
}
use ethonline.World.Approver.{
  WorldConfig, Approvers, ApproverStatus, session_of, update_session, start_orb_verification,
  on_tick, on_poll, on_verify, bind_ledger_approver, binding_details, check_binding, bind_session,
  get_approver_status,
}
use ethonline.World.Steps.{Reach, booted, later, starts, fires, polled, answered, binds}
use ethonline.World.Machine.{may_move, observed, Step-refines}
use ethonline.World.Nullifiers.{Reach-nullifier}
use ethonline.World.Bound.{new_binding, bind_ledger_approver-approves}

abbrev ethers : Ethers
ethers = record { get_address = some; verify_message = λ message signature. some signature }

abbrev ledger : Text
ledger = codes "0xledger"

abbrev hash_signal : Text → Text
hash_signal address = address

abbrev config : WorldConfig
config = record {
  is_world_id_required = true;
  is_world_id_configured = true;
  action = some (codes "approve");
  environment = some (codes "staging");
  ledger_approver_address = ledger;
}

abbrev user : Text
user = codes "user-1"

abbrev id : Text
id = codes "r1"

abbrev proof : IdkitResult
proof = record {
  action = some (codes "approve");
  responses =
      record {
        identifier = codes "orb";
        signal_hash = some ledger;
        nullifier = some (codes "0xAB");
      }
      ∷ [];
}

abbrev accepted : VerifyResponse
accepted = record {
  success = true;
  results = some (record { identifier = codes "orb"; success = true } ∷ []);
}

abbrev booted_state : Approvers
booted_state = record { sessions = []; bindings = [] }

abbrev started : Approvers
started = (start_orb_verification ethers config user (some (id, codes "url")) 1000 booted_state).1

abbrev fired : Approvers
fired = on_tick id 3000 started

abbrev confirmed : Approvers
confirmed = on_poll id (PollResult.confirmed proof) fired

abbrev verified : Approvers
verified = on_verify ethers config hash_signal ledger id (some (some accepted)) confirmed

abbrev bound : Approvers
bound = (bind_ledger_approver ethers config user id ledger 9000 verified).1

reach_confirmed : Reach ethers hash_signal 4000 confirmed
unfolding lookup
reach_confirmed =
    later 4000
      (later 3000 (later 1000 booted (omega arith) (starts config user id (codes "url") refl))
        (omega arith) (fires id))
      (omega arith) (polled id (PollResult.confirmed proof))

reach_verified : Reach ethers hash_signal 5000 verified
reach_verified =
    later 5000 reach_confirmed (omega arith) (answered config ledger id (some (some accepted)))

abbrev the_session : Session
the_session = record {
  request_id = id;
  user_id = user;
  status = OrbStatus.verified;
  connector_url = none;
  expires_at = 901000;
  bind_message = some (codes "chapter2-world-bind:0xab");
  error_message = none;
  nullifier = some (codes "0xab");
  has_timer = false;
  phase = Phase.resting;
}

session_lem : lookup id verified.sessions ≡ some the_session
unfolding lookup insert text_eq to_lower start_orb_verification on_tick on_poll on_verify
    update_session tick poll_returns verify_returns check_proof check_response orb_succeeds
    same_option is_bound_elsewhere binding_with bind_message_of
session_lem = refl

abbrev status : ApproverStatus
status = record {
  approver_address = ledger;
  is_world_id_required = true;
  is_world_id_configured = true;
  environment = some (codes "staging");
  is_verified = true;
  bound_at = some 9000;
  expires_at = some 7776009000;
}

bound_lem : (bind_ledger_approver ethers config user id ledger 9000 verified).0 ≡ ok status
unfolding lookup insert text_eq to_lower start_orb_verification on_tick on_poll on_verify
    update_session tick poll_returns verify_returns check_proof check_response orb_succeeds
    same_option is_bound_elsewhere binding_with bind_message_of bind_ledger_approver session_of
    binding_details check_binding bind_session get_approver_status insert_binding binding_of
bound_lem = refl

Step-refines_example :
    (x' : Session) × (lookup id bound.sessions ≡ some x')
    × (may_move (observed 5000 the_session) (observed 9000 x') ≡ true)
Step-refines_example =
    Step-refines ethers hash_signal 5000 9000 verified bound id the_session reach_verified
      (omega arith) (binds config user id ledger) session_lem

abbrev the_row : Binding
the_row = new_binding ledger (codes "0xab") 9000

row_lem : lookup ledger bound.bindings ≡ some the_row
unfolding lookup insert text_eq to_lower start_orb_verification on_tick on_poll on_verify
    update_session tick poll_returns verify_returns check_proof check_response orb_succeeds
    same_option is_bound_elsewhere binding_with bind_message_of bind_ledger_approver session_of
    binding_details check_binding bind_session insert_binding
row_lem = refl

Reach-nullifier_example : ledger ≡ ledger
Reach-nullifier_example =
    Reach-nullifier ethers hash_signal (λ a b e. refl) 9000 bound ledger ledger the_row the_row
      (later 9000 reach_verified (omega arith) (binds config user id ledger)) row_lem row_lem refl

bind_ledger_approver-approves_example :
    (x : Session) × (nullifier approver signer : Text) × (lookup id verified.sessions ≡ some x)
    × (x.user_id ≡ user)
    × (is_verified x.status ≡ true)
    × (is_over 9000 x ≡ false)
    × (x.nullifier ≡ some nullifier)
    × (ethers.verify_message (bind_message_of nullifier) ledger ≡ some signer)
    × (ethers.get_address signer ≡ some approver)
    × (ethers.get_address config.ledger_approver_address ≡ some approver)
    × (binding_of approver bound.bindings ≡ some (new_binding approver nullifier 9000))
    × ((assert_verified_for_approval ethers config.ledger_approver_address true 500000
          bound.bindings).0
        ≡ ok tt)
bind_ledger_approver-approves_example =
    bind_ledger_approver-approves ethers hash_signal config 5000 9000 500000 user id ledger verified
      status reach_verified bound_lem (omega arith)
