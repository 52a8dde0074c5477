-- ===== src/Tests/Workers.antt =====
-- `flow_get` of src/flow.c by one worker and by two, on a table that is empty.
use dpdk_based_nids.Flow.Match.{hash_input, flow_hash_calculate}
use dpdk_based_nids.Flow.State.{FlowPacket, FlowTable}
use dpdk_based_nids.Flow.Table.Workers.{outside, Reach, max_flows-exceeded}
use dpdk_based_nids.Flow.Table.{config_of, find_flow}
use dpdk_based_nids.Prelude.{◌+◌, ◌≡◌, refl, arith, [], ◌∷◌}
use dpdk_based_nids.Tests.Flows.{sum, request, empty_table}
use dpdk_based_nids.Tests.Reassembly.{plenty}

-- Room for one flow.
abbrev small_table : FlowTable
small_table = record empty_table { config = config_of 4 1 }

-- NTP to another port.
abbrev other_request : FlowPacket
other_request = record request { dst_port = 124 }

max_flows-exceeded_example :
    (t' : FlowTable) × Reach plenty plenty sum small_table
      (outside ∷ outside ∷ [])
      t'
      (outside ∷ outside ∷ [])
    × (t'.stats.flows_active ≡ small_table.config.max_flows + 1)
unfolding find_flow flow_hash_calculate hash_input
max_flows-exceeded_example =
    max_flows-exceeded plenty plenty sum 100 request other_request small_table refl (omega arith)
      refl refl refl (λ k. refl)
