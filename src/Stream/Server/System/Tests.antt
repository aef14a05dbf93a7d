-- ===== src/Stream/Server/System/Tests.antt =====
-- The registrar of Registrar/Start/Tests and its stream server over two rounds.
use configcat_proxy.Base.{false, none, [], ◌∷◌, string_eq, nat_eq}
use configcat_proxy.Registrar.Start.Laws.{last_profile}
use configcat_proxy.Registrar.Start.Tests.{
  first_profile, some_decode, first_answer, some_rounds, some_conf, first_here, distinct_ids,
  started_registrar, started_here,
}
use configcat_proxy.Stream.Server.System.{new_system, system_rounds}
use configcat_proxy.Stream.Server.System.Laws.{IsFollowing, system_rounds-new_system}

system_rounds-new_system_example :
    IsFollowing
      (system_rounds some_decode false some_rounds (new_system started_registrar (65 ∷ [])))
      (last_profile some_decode false first_profile (65 ∷ []) some_rounds)
system_rounds-new_system_example =
    system_rounds-new_system some_decode false some_conf first_profile none first_answer some_rounds
      started_registrar (65 ∷ []) first_here distinct_ids started_here
