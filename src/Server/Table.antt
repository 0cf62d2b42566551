-- ===== src/Server/Table.antt =====
-- UdpSessionsMap, the std::map of inc/sessionManager.h that src/sessionManager.cpp keeps the sessions in.
use ramses_proxy.Prelude.{ℕ, Option, none, some, List, [], ◌∷◌, if◌then◌else◌}
use ramses_proxy.AdrTuple
use ramses_proxy.AdrTuple.{AddressApi, AdrTuple}

module _ (api : AddressApi) where
  -- UdpSessionsMap, std::map<AdrTuple, RouterSessionPtr>: the pairs in the order of operator<.
  abbrev pub SessionsMap : Type 0
  SessionsMap = List (AdrTuple api × ℕ)

  -- m_udpSessions[key] = value
  unfoldable pub assign : AdrTuple api → ℕ → SessionsMap → SessionsMap
  assign key value [] = (key, value) ∷ []
  assign key value ((j, v) ∷ rest) =
      if AdrTuple.less api key j
      then (key, value) ∷ (j, v) ∷ rest
      else if AdrTuple.less api j key
      then (j, v) ∷ assign key value rest
      else (j, value) ∷ rest

  -- m_udpSessions.find(key)
  unfoldable pub find : AdrTuple api → SessionsMap → Option ℕ
  find key [] = none
  find key ((j, v) ∷ rest) =
      if AdrTuple.less api key j
      then none
      else if AdrTuple.less api j key
      then find key rest
      else some v

  -- m_udpSessions.erase(find(key)), and nothing if there is no such key
  unfoldable pub erase : AdrTuple api → SessionsMap → SessionsMap
  erase key [] = []
  erase key ((j, v) ∷ rest) =
      if AdrTuple.less api key j
      then (j, v) ∷ rest
      else if AdrTuple.less api j key
      then (j, v) ∷ erase key rest
      else rest
