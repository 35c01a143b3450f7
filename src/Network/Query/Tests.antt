-- ===== src/Network/Query/Tests.antt =====
-- Answers on a network with three attesters (modules/network/keeper/grpc_query.go).
use ev_abci.Prelude.{ltb, ok, pos, some, ◌*◌, ◌≡◌}
use ev_abci.Network.Fixture.{three, three-IsValid, wiring}
use ev_abci.Network.Invariant.{size}
use ev_abci.Network.Invariant.Confirmed.{votes}
use ev_abci.Network.Query.{query_soft_confirmation_status}
use ev_abci.Network.Query.Answers.{query_soft_confirmation_status-votes}

query_soft_confirmation_status-votes_example :
    query_soft_confirmation_status wiring (some (pos 4)) three
    ≡ ok (record {
      soft_confirmed = ltb (2 * size three) (3 * votes (pos 4) three);
      voted_power = votes (pos 4) three;
      total_power = size three;
      quorum_fraction = "0.667";
    })
unfolding three-IsValid
query_soft_confirmation_status-votes_example =
    query_soft_confirmation_status-votes wiring three (pos 4) three-IsValid
