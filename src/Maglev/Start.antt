-- ===== src/Maglev/Start.antt =====
-- nf/maglev/maglev.c: what `nf_init` sets up.
use klint.Base.{
  ℕ, ◌-◌, ◌≤◌, ◌<◌, ◌≡◌, refl, false, none, some, List, get_or, get_or-replicate, replicate, ltb,
  leb, ◌==◌, arith,
}
use klint.IndexPool.{index_pool_alloc}
use klint.IndexPool.Spec.{entry}
use klint.IndexPool.Alloc.{index_pool_alloc-IsValid}
use klint.Cht.{cht_alloc}
use klint.Cht.Fill.{cht_alloc-table_data}
use klint.Flow.{Flow, flow_bytes, zero_flow, sizeof_flow, length-flow_bytes}
use klint.KeyTable.Store.{fresh-IsStore}
use klint.Config.{ConfigItem, codes, os_config_get_u16, os_config_get_time, os_config_get_size}
use klint.Config.Get.{os_config_get_size-lt}
use klint.Cht.{max_cht_height}
use klint.Maglev.{Maglev, balancer_alloc, nf_init}
use klint.Maglev.Table.{last_packet}
use klint.Maglev.Handle.{IsServing}

-- With two devices or more, its four parameters in the configuration and a height of the hash table
-- below MAX_CHT_HEIGHT and not below the number of devices, the load balancer's nf_init succeeds:
-- the state is serving, no flow is in the table, no backend is alive, flow_backends are zero, and the
-- backends' expiration time and hash table are those that the configuration asks for.
pub nf_init-IsServing :
    (items : List ConfigItem) (devices_count : ℕ)
    {flow_capacity cht_height backend_expiration_time flow_expiration_time : ℕ}
    → 2 ≤ devices_count
    → os_config_get_size items (codes "flow capacity") ≡ some flow_capacity
    → os_config_get_u16 items (codes "cht height") ≡ some cht_height
    → os_config_get_time items (codes "backend expiration time") ≡ some backend_expiration_time
    → os_config_get_time items (codes "flow expiration time") ≡ some flow_expiration_time
    → cht_height < max_cht_height
    → devices_count ≤ cht_height
    → (nf : Maglev) × (nf_init items devices_count ≡ some nf)
      × IsServing nf
      × (nf.devices_count ≡ devices_count)
      × ((flow : Flow) → last_packet nf.balancer flow ≡ none)
      × ((k : ℕ) → get_or nf.balancer.flow_backends k 0 ≡ 0)
      × ((k : ℕ) → entry nf.balancer.backend_pool k ≡ none)
      × (nf.balancer.backend_pool.expiration_time ≡ backend_expiration_time)
      × (nf.balancer.cht ≡ cht_alloc cht_height (devices_count - 1))
unfolding nf_init balancer_alloc index_pool_alloc
nf_init-IsServing items devices_count {flow_capacity} {cht_height} {backend_expiration_time}
      {flow_expiration_time} enough c h be fe below above =
    let small = os_config_get_size-lt items (codes "flow capacity") c in
    let few : ltb devices_count 2 ≡ false = ground arith in
    let zero : (cht_height == 0) ≡ false = ground arith in
    let tall : leb max_cht_height cht_height ≡ false = ground arith in
    let short : leb cht_height (devices_count - 1) ≡ false = ground arith in
    let (m, alloc, (valid, size, exp, empty)) =
      fresh-IsStore flow_bytes zero_flow sizeof_flow length-flow_bytes flow_capacity
        flow_expiration_time (omega arith) in
    let (backends_valid, backend_size, _, unused, _) =
      index_pool_alloc-IsValid (devices_count - 1) backend_expiration_time in
    let (_, _, _, listed) = cht_alloc-table_data cht_height (devices_count - 1) (omega arith) in
    let zeros : (k : ℕ) → get_or (replicate flow_capacity 0) k 0 ≡ 0 =
      λ k. get_or-replicate {A = ℕ} flow_capacity k 0 in
    (
      record {
        balancer = record {
          flow_indices = m;
          flow_pool = index_pool_alloc flow_capacity flow_expiration_time;
          flow_heap = replicate flow_capacity zero_flow;
          flow_backends = replicate flow_capacity 0;
          backend_pool = index_pool_alloc (devices_count - 1) backend_expiration_time;
          cht = cht_alloc cht_height (devices_count - 1);
        };
        devices_count = devices_count;
      },
      rw (few, c, h, be, fe, zero, tall, short, alloc) refl,
      record {
        valid = record { store_valid = valid; backends_valid = backends_valid };
        enough = enough;
        backend_count = backend_size;
        known_lt = λ k. rw (zeros k) (omega arith);
        listed_lt = listed;
      },
      refl,
      empty,
      zeros,
      unused,
      refl,
      refl,
    )
