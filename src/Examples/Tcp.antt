-- ===== src/Examples/Tcp.antt =====
-- The theorems on the TCP clients at concrete values.
use playit_agent.Common.{◌≡◌, ◌⊎◌, refl, [], ◌∷◌, arith}
use playit_agent.Wire.{SocketAddr}
use playit_agent.Wire.BigEndian.{big_endian}
use playit_agent.Proto.Feed.{NewClient}
use playit_agent.Origin.{insert_all, update, lookup}
use playit_agent.Proxy.{AddressText, ProxyProtocolHeader}
use playit_agent.Stats.{no_stats}
use playit_agent.Lan.{v4_addr}
use playit_agent.Tcp.Clients.{
  Awaited, Claiming, Outside, Claimed, new_worker, tcp_header, new_client, claim, finished,
}
use playit_agent.Tcp.Clients.Claims.{Hindered, Served, claim-new_client}
use playit_agent.Tcp.Clients.Runs.{Tasks, Sole, TaskStep, TasksReachable, TasksReachable-Sole}
use playit_agent.Examples.{client}
use playit_agent.Examples.Clients.{resource, no_dns}

abbrev printed : AddressText
printed = record { of_ip4 = λ ip. ip ∷ []; of_ip6 = λ ip. ip ∷ []; of_port = λ p. p ∷ [] }

abbrev announced : NewClient
announced = record {
  connect_addr = v4_addr 16_909_060 1_234;
  peer_addr = SocketAddr.v4 client;
  data_center_id = 1;
  tunnel_id = 4;
  port_offset = 2;
  claim_instructions = record { address = v4_addr 16_909_060 9_000; token = 7 ∷ 8 ∷ [] };
}

abbrev all_well : Outside
all_well = record {
  connect = Awaited.done;
  send_token = Awaited.done;
  confirm = Awaited.done;
  origin_connect = Awaited.done;
  send_header = Awaited.done;
  tunn_at = 1_000;
  orig_at = 1_000;
  added_at = 1_001;
}

abbrev first_task : Claiming
first_task = record {
  id = 1;
  details = announced;
  found = resource;
  proxy_header = ProxyProtocolHeader.af_inet client.ip 16_909_060 client.port 1_234;
}

claim-new_client_example :
    ((claim big_endian printed no_dns all_well first_task ≡ Claimed.gave_up)
      × Hindered big_endian printed no_dns all_well (update (resource ∷ [])) announced)
    ⊎ Served big_endian printed no_dns all_well
        (update (resource ∷ []))
        announced
        (new_worker no_stats)
        first_task
unfolding new_client tcp_header lookup update insert_all
claim-new_client_example =
    claim-new_client big_endian printed no_dns all_well (update (resource ∷ [])) announced
      (new_worker no_stats) first_task refl

-- The client is announced, then connected.
abbrev one_task : Tasks
one_task = record {
  worker = (new_client (update (resource ∷ [])) announced (new_worker no_stats)).0;
  claims = first_task ∷ [];
}

TasksReachable-Sole_example : Sole (record {
  worker = finished (claim big_endian printed no_dns all_well first_task) one_task.worker;
  claims = [];
})
unfolding new_client tcp_header lookup update insert_all
TasksReachable-Sole_example = TasksReachable-Sole big_endian printed no_dns _ (
    TasksReachable.next
      (TasksReachable.next (TasksReachable.start no_stats refl)
        (TaskStep.accepted (update (resource ∷ [])) announced (omega arith)))
      (TaskStep.settled all_well [] [] first_task refl))
