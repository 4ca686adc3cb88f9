-- ===== src/Tests/Api.antt =====
-- The handlers of a server whose node is syncing, away, or there.
use btcdwatch_com.Base.{ℕ, List, none, ◌≡◌, ◌≤◌, refl, [], ◌∷◌, true}
use btcdwatch_com.Base.Map.{elem}
use btcdwatch_com.Base.Text.{Text, codes, to_lower, byte_len, text_eq}
use btcdwatch_com.Cache.{new_lru}
use btcdwatch_com.Api.{Server, Response, Payload, Code, write_error}
use btcdwatch_com.Api.Answers.{probed, handlers-gated, handlers-unavailable}
use btcdwatch_com.Api.Handlers.{handle_tx, handle_address, handle_block, handle_search}
use btcdwatch_com.Api.Limits.{arrived, left, after_scans, after_scans_bound}
use btcdwatch_com.Chain.{all_hex, hex_decodes, parse_block_height, parse_uint}
use btcdwatch_com.Chain.Classify.{classify_query-hex}
use btcdwatch_com.Api.Contract.{IsContract}
use btcdwatch_com.Api.Endpoints.{handle_request-IsContract}
use btcdwatch_com.Api.Routes.{Request, Route, handle_request}
use btcdwatch_com.Block.{Block, block_of, row_of}
use btcdwatch_com.Lookup.{mined, derive}
use btcdwatch_com.Queue.{num}
use btcdwatch_com.Node.{new_client, is_available}
use btcdwatch_com.Service.{through, new_service}
use btcdwatch_com.Tests.Doubles.{milli}
use btcdwatch_com.Base.Action.{ok, err}
use btcdwatch_com.Base.Int.{negsuc}
use btcdwatch_com.Node.{Error, is_no_tx_info}
use btcdwatch_com.Service.{Env}
use btcdwatch_com.Sync.{new_sync}
use btcdwatch_com.Sync.Probes.{Event, asked, answered, after_events}
use btcdwatch_com.Tests.Site.{
  small_node, block_id, small_env, small_net, small_server, coinbase_id, coinbase_raw, block_raw,
  block_header,
}

-- Eight hours after the tip of the last probe that was answered.
abbrev probes : List Event
probes =
    asked 1
    ∷ answered 2 (ok (3, 0))
    ∷ answered 28800000000000 (ok (3, 0))
    ∷ answered 28800000000001 (err Error.unavailable)
    ∷ []

abbrev syncing_server : Server milli
syncing_server = record small_server {
  service = record small_server.service { sync = after_events true (new_sync true) probes };
}

abbrev refused : Response milli × Server milli
refused = (write_error 503 Code.node_syncing, probed small_env syncing_server)

handlers-gated_example :
    (handle_tx small_env small_net coinbase_id syncing_server ≡ refused)
    × (handle_address small_env small_net coinbase_id [] [] syncing_server ≡ refused)
    × (handle_block small_env small_net coinbase_id [] [] syncing_server ≡ refused)
    × (handle_search small_env small_net coinbase_id syncing_server ≡ refused)
handlers-gated_example =
    handlers-gated small_env small_net coinbase_id [] [] true (new_sync true) probes syncing_server
      refl

abbrev unreachable : Response milli × Server milli
unreachable =
    (write_error 503 Code.node_unavailable, probed (through new_client true small_env) small_server)

handlers-unavailable_example :
    (handle_tx (through new_client true small_env) small_net coinbase_id small_server ≡ unreachable)
    × (handle_block (through new_client true small_env) small_net coinbase_id [] [] small_server
        ≡ unreachable)
    × (handle_search (through new_client true small_env) small_net coinbase_id small_server
        ≡ unreachable)
unfolding is_available new_service all_hex
handlers-unavailable_example =
    handlers-unavailable new_client true small_env refl small_net coinbase_id (to_lower coinbase_id)
      [] [] (to_lower coinbase_id) small_server
      (classify_query-hex small_net.decode small_net.is_for_net coinbase_id refl refl) refl refl

after_scans_bound_example :
    ((after_scans 2 (arrived ∷ arrived ∷ arrived ∷ left ∷ []) (small_server, 0)).0.scans
      ≡ (after_scans 2 (arrived ∷ arrived ∷ arrived ∷ left ∷ []) (small_server, 0)).1)
    × ((after_scans 2 (arrived ∷ arrived ∷ arrived ∷ left ∷ []) (small_server, 0)).1 ≤ 2)
after_scans_bound_example =
    after_scans_bound 2 (arrived ∷ arrived ∷ arrived ∷ left ∷ []) small_server refl refl

abbrev page : Block milli
page =
    block_of small_env block_raw 0 25
      (row_of small_env (mined small_env (derive small_env coinbase_raw []) block_header) ∷ [])
      (num milli 0)

page_answered :
    (handle_block small_env small_net (codes "7") [] [] small_server).0.payload ≡ Payload.block page
unfolding handle_block new_service parse_block_height byte_len parse_uint text_eq elem new_lru
page_answered = refl

abbrev search_request : Request
search_request = record {
  ip = codes "1.2.3.4";
  path = codes "/api/search";
  route = Route.search (codes "?");
}

handle_request-IsContract_example :
    IsContract (handle_request small_env small_net true search_request (none, small_server)).0
handle_request-IsContract_example =
    handle_request-IsContract small_env small_net true search_request none small_server

-- A node that has the block and not its transaction: the search answers that there is no such thing,
-- and the block endpoint that it failed.
abbrev missing_env : Env milli ℕ Text
missing_env = record small_env {
  backend = record small_node { raw_transaction = λ hash. err (Error.rpc (negsuc 4)) };
}

search_hides_block :
    (handle_search missing_env small_net block_id small_server).0.payload
    ≡ Payload.not_found block_id
unfolding handle_search new_service parse_block_height byte_len parse_uint text_eq elem new_lru
    hex_decodes to_lower
search_hides_block = refl

block_fails :
    (handle_block missing_env small_net block_id [] [] small_server).0.payload
    ≡ Payload.error Code.internal_error
unfolding handle_block new_service parse_block_height byte_len parse_uint text_eq elem new_lru
    hex_decodes to_lower is_no_tx_info
block_fails = refl
