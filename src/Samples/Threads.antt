-- ===== src/Samples/Threads.antt =====
-- The theorems on interleaved calls of the transport at concrete executions.
use libonionrequests.Common.{[], ◌∷◌, lookup, some}
use libonionrequests.Samples.{sample}
use libonionrequests.Samples.Network.{node_at, network, one_cached, both_finished}
use libonionrequests.Transport.Interleaving.{finished}
use libonionrequests.Transport.WriteOnce.{Spec, answers, refines}

refines_example :
    Spec
      (λ i. lookup i one_cached)
      (answers sample network (finished (node_at 7) (some 3) ∷ finished (node_at 7) (some 3) ∷ []))
refines_example = refines sample network both_finished
