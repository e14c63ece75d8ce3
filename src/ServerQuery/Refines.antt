-- ===== src/ServerQuery/Refines.antt =====
-- serverquery.py: the operations of `Ts3Client` as `ServerQueryClient` runs them.
use teamspeak_prometheus.Base.{ℕ, ◌≡◌, Option, some, List, Text, list_eq, nat_eq}
use teamspeak_prometheus.Exec.{Result}
use teamspeak_prometheus.Characters.{Characters}
use teamspeak_prometheus.ServerQuery.{Socket, Client}
use teamspeak_prometheus.ServerQuery.Session.{login, serverlist, use_server, serverinfo}
use teamspeak_prometheus.ServerQuery.Connection.{connect, ts3_client}

module _ {W : Type 0} (S : Socket W) (C : Characters) (decode : List ℕ → Text) where
  -- the run ended with a result
  abbrev Ended : {A : Type 0} → Option (Result A × Client W) → Type 0
  Ended {A} o = (r : Result A × Client W) × (o ≡ some r)

  -- the operations of the service's client end with the results of those of the protocol client
  abbrev pub Runs : Text → Text → Text → ℕ → Option Text → Client W → Type 0
  Runs host username password port id c =
      (connect S C decode host port c ≡ some ((ts3_client S C decode).connect host port c))
      × (login S C decode username password c
          ≡ some ((ts3_client S C decode).login username password c))
      × (serverlist S C decode c ≡ some ((ts3_client S C decode).serverlist c))
      × (use_server S C decode id c ≡ some ((ts3_client S C decode).use_server id c))
      × (serverinfo S C decode c ≡ some ((ts3_client S C decode).serverinfo c))
