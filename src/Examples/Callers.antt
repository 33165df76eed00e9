-- ===== src/Examples/Callers.antt =====
-- A forged X-Forwarded-For header, and the index after an update.
use hypergate_engine.Prelude.{[], ◌∷◌, ◌++◌, ◌≡◌, refl, length, pos, arith, list_beq}
use hypergate_engine.Prelude.Text.{lit, split, trim_space, cut_last, trim_suffix, trim_prefix}
use hypergate_engine.Net.{split_host_port}
use hypergate_engine.Prelude.Maps.{lookup}
use hypergate_engine.ClientIp.{resolve, with_peer, split_xff, strip_port}
use hypergate_engine.ClientIp.Trust.{resolve-forged}
use hypergate_engine.Identity.Workload.{Service}
use hypergate_engine.Identity.Index.{Versioned, new_index, apply_services}
use hypergate_engine.Identity.Index.Laws.{IsBacked, apply_services-IsBacked}
use hypergate_engine.Examples.Data.{addr_1}

-- The header's one entry and the peer.
chain_length : length (with_peer (split_xff (lit "1.1.1.1")) (strip_port (lit "2.2.2.2"))) ≡ 2
unfolding with_peer list_beq strip_port trim_space split_host_port cut_last trim_suffix trim_prefix
    split_xff split
chain_length = refl

resolve-forged_example :
    resolve (lit "6.6.6.6" ++ b',' ∷ lit "1.1.1.1") (lit "2.2.2.2") (pos 1)
    ≡ resolve (lit "1.1.1.1") (lit "2.2.2.2") (pos 1)
resolve-forged_example =
    resolve-forged (lit "6.6.6.6") (lit "1.1.1.1") (lit "2.2.2.2") (pos 1)
      (rw chain_length (omega arith))

new_index-IsBacked : IsBacked new_index
unfolding lookup
new_index-IsBacked = record {
  backed = λ ip r h. absurd (ground arith);
  owned = λ ip r h. absurd (ground arith);
  distinct = λ n m r s h k e. absurd (ground arith);
  fresh = λ n r h. absurd (ground arith);
}

abbrev web : Versioned Service
web = record {
  res = record {
    namespace = lit "default";
    name = lit "web";
    cluster_ips = addr_1 ∷ [];
    ports = [];
  };
  version = lit "1";
}

apply_services-IsBacked_example :
    IsBacked (apply_services ((lit "default/web", web) ∷ []) (lit "default/old" ∷ []) new_index)
apply_services-IsBacked_example =
    apply_services-IsBacked ((lit "default/web", web) ∷ []) (lit "default/old" ∷ []) new_index
      new_index-IsBacked
