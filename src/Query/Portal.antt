-- ===== src/Query/Portal.antt =====
-- keeper/query_server_portal.go
use dollar.Base.{ℕ, ◌%◌, ◌^◌, Bool, ◌&&◌, Option, List, [], ◌∷◌, ◌==◌, if◌then◌else◌}
use dollar.Base.Bytes.{Bytes}
use dollar.Base.Map.{Map}
use dollar.Types.{M, gets, get_item, ◌>>=◌, ◌>>◌}
use dollar.Types.Store.{World, Peer}
use dollar.State.Portal.{get_portal_paused}
use dollar.State.Listing.{get_portal_peers}
use dollar.Query.Dollar.{asked}

-- The supported tokens of one chain, in the order of the keys.
unfoldable pub destination_tokens : ℕ → Map (ℕ × Bytes) Bool → List Bytes
destination_tokens chain_id [] = []
destination_tokens chain_id (((chain, token), supported) ∷ m) =
    let rest = destination_tokens chain_id m in
    if chain == chain_id && supported then token ∷ rest else rest

module _ {Chain : Type 0} where
  unfoldable pub query_owner : Option (Unit {0}) → M (World Chain) Bytes
  query_owner req = do asked req; get_item (λ w. w.portal.owner)

  unfoldable pub query_portal_paused : Option (Unit {0}) → M (World Chain) Bool
  query_portal_paused req = do asked req; gets get_portal_paused

  unfoldable pub query_peers : Option (Unit {0}) → M (World Chain) (Map ℕ Peer)
  query_peers req = do asked req; gets (λ w. get_portal_peers w.portal.peers)

  -- The chain id of the request is cut to 16 bits.
  unfoldable pub query_destination_tokens : Option ℕ → M (World Chain) (List Bytes)
  unfolding destination_tokens
  query_destination_tokens req = do
    chain_id ← asked req
    gets (λ w. destination_tokens (chain_id % 2 ^ 16) w.portal.bridging_paths)

  unfoldable pub query_nonce : Option (Unit {0}) → M (World Chain) ℕ
  query_nonce req = do asked req; get_item (λ w. w.portal.nonce)
