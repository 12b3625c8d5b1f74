-- ===== src/Examples/Providers.antt =====
-- Two providers of a collector.
use nameko_zh_cn.Base.{◌≡◌, refl, true, [], ◌∷◌, contains, add, nat_eq}
use nameko_zh_cn.Eventlet.{EventApi, slot}
use nameko_zh_cn.Providers.{is_empty, ProviderCollector, new_collector, register_provider}
use nameko_zh_cn.Providers.Collected.{IsCollecting}

abbrev pub events : EventApi (Unit {0})
events = slot (Unit {0})

abbrev pub collector : ProviderCollector events
collector = record {
  providers = 1 ∷ 2 ∷ [];
  providers_registered = true;
  last_provider_unregistered = events.new;
}

-- That is what registering the two makes of a new collector.
collector_registered :
    register_provider events 1 (register_provider events 2 (new_collector events)) ≡ collector
unfolding register_provider slot add contains
collector_registered = refl

pub collector-IsCollecting : IsCollecting events collector
unfolding is_empty slot
collector-IsCollecting = record { registered = refl; last = refl }
