-- ===== src/Cluster/Routing.antt =====
-- A cluster built from the reply to `cluster slots` sends each key to the master of its slot.
use cpp_hiredis_cluster.Base.{ℕ, ◌≡◌, sym, ap, ◌∙◌, true, false, [], ◌∷◌, none, some, arith, length}
use cpp_hiredis_cluster.Text.{Text}
use cpp_hiredis_cluster.SlotHash.{slot_by_key}
use cpp_hiredis_cluster.SlotHash.Slots.{slot_by_key-lt}
use cpp_hiredis_cluster.Effect.Reply.{Reply, Replies, RedisReply, end, element}
use cpp_hiredis_cluster.Effect.Monad.{ok, Conn, Hiredis, World, after, opened}
use cpp_hiredis_cluster.Effect.Calls.{open_connection, is_usable}
use cpp_hiredis_cluster.Container.Types.{slot_less}
use cpp_hiredis_cluster.Container.OrderedMap.{map_insert}
use cpp_hiredis_cluster.Container
use cpp_hiredis_cluster.Container.{DefaultContainer, insert_slots, search_by_slots}
use cpp_hiredis_cluster.Container.Interface.{default_container}
use cpp_hiredis_cluster.Container.Search.{lookup_slot, search_by_slots_lem}
use cpp_hiredis_cluster.Container.Nodes.{
  Nodes, AreDisjoint, insert_all, lookup_slot-insert_all, insert_all-Separated,
}
use cpp_hiredis_cluster.Cluster.{
  Cluster, Entry, parse_entry, init_entries, insert_entry, init, init_reply, set_ready, construct,
  constructed, on_container, serve_slot, get_connection,
}

abbrev pub empty_container : DefaultContainer
empty_container = record { has_disconnect = true; connections = []; nodes = [] }

module _ {E : Type 0} (h : Hiredis E) where
  -- `pairs` are the slot ranges of the reply's elements, each with the connection that opening its
  -- host and port gave; every element is well formed and every connection usable. `e'` is the
  -- outside behind the last connection.
  abbrev pub Connects : Replies → E → Nodes → E → Type 0
  Connects end e pairs e' = (pairs ≡ []) × (e ≡ e')
  Connects (element reply rest) e pairs e' =
      (entry : Entry) × (c : Conn) × (more : Nodes) × (parse_entry reply ≡ some entry)
      × ((h.connect entry.host entry.port e).0 ≡ ok (some c))
      × (h.has_error c (h.connect entry.host entry.port e).1 ≡ false)
      × (pairs ≡ (entry.slots, c) ∷ more)
      × Connects rest (h.connect entry.host entry.port e).1 more e'

  insert_slots-usable :
      (entry : Entry) (c : Conn) (s : DefaultContainer) (w : World E)
      → (h.connect entry.host entry.port w.outside).0 ≡ ok (some c)
      → h.has_error c (h.connect entry.host entry.port w.outside).1 ≡ false
      → insert_slots h entry.slots entry.host entry.port s w ≡ (
        ok tt,
        record s { nodes = map_insert slot_less entry.slots c s.nodes },
        record { outside = (h.connect entry.host entry.port w.outside).1; log = opened c ∷ w.log },
      )
  unfolding insert_slots open_connection is_usable
  insert_slots-usable entry c s w opens fine = rw (opens, fine)

  abbrev Ready : Type 0
  Ready = Cluster DefaultContainer

  with_nodes : Ready → Nodes → Ready
  with_nodes cl nodes = record cl { container = record cl.container { nodes = nodes } }

  insert_entry-usable :
      (root : RedisReply) (reply : Reply) (entry : Entry) (c : Conn) (cl : Ready) (w : World E)
      → parse_entry reply ≡ some entry
      → (h.connect entry.host entry.port w.outside).0 ≡ ok (some c)
      → h.has_error c (h.connect entry.host entry.port w.outside).1 ≡ false
      → insert_entry (default_container h) root (parse_entry reply) cl w ≡ (
        ok tt,
        with_nodes cl (map_insert slot_less entry.slots c cl.container.nodes),
        record { outside = (h.connect entry.host entry.port w.outside).1; log = opened c ∷ w.log },
      )
  unfolding insert_entry on_container with_nodes
  insert_entry-usable root reply entry c cl w parsed opens fine =
      rw (parsed, insert_slots-usable entry c cl.container w opens fine)

  -- The loop of `init` over well-formed elements.
  init_entries-Connects :
      (root : RedisReply) (elements : Replies) (pairs : Nodes) (e' : E) (cl : Ready) (w : World E)
      → Connects elements w.outside pairs e'
      → (w' : World E) × (init_entries (default_container h) root elements cl w
          ≡ (ok tt, with_nodes cl (insert_all pairs cl.container.nodes), w'))
        × (w'.outside ≡ e')
  unfolding init_entries with_nodes
  init_entries-Connects root end pairs e' cl w (none_left, same) = (w, rw none_left, same)
  init_entries-Connects root (element reply rest) pairs e' cl w
        (entry, c, more, parsed, opens, fine, split, others) =
      let cl₁ : Ready = with_nodes cl (map_insert slot_less entry.slots c cl.container.nodes) in
      let w₁ : World E = record {
        outside = (h.connect entry.host entry.port w.outside).1;
        log = opened c ∷ w.log;
      } in
      let (w', done, same) = init_entries-Connects root rest more e' cl₁ w₁ others in
      (
        w',
        ap (after (λ _. init_entries (default_container h) root rest))
              (insert_entry-usable root reply entry c cl w parsed opens fine)
            ∙ done
            ∙ ap (λ ps. (ok tt, with_nodes cl (insert_all ps cl.container.nodes), w')) (sym split),
        same,
      )

  -- The constructor on a well-formed reply.
  construct-Connects :
      (root : RedisReply) (elements : Replies) (pairs : Nodes) (e' : E) (w : World E)
      → root.value ≡ Reply.array elements
      → Connects elements w.outside pairs e'
      → (w' : World E) × (construct (default_container h) empty_container true true root w ≡ (
        ok (record {
          container = record empty_container { nodes = insert_all pairs [] };
          user_moved_fn = none;
          ready_to_use = true;
          moved = false;
        }),
        w',
      ))
        × (w'.outside ≡ e')
  unfolding construct init with_nodes
  construct-Connects root elements pairs e' w shape connects =
      let fresh : Ready = record {
        container = empty_container;
        user_moved_fn = none;
        ready_to_use = false;
        moved = false;
      } in
      let (w', done, same) = init_entries-Connects root elements pairs e' fresh w connects in
      (
        w',
        ap
              (λ v.
                constructed (default_container h) (init_reply (default_container h) root v fresh w))
              shape
            ∙ ap
                (λ t.
                  constructed (default_container h)
                    (after (λ _. set_ready (default_container h)) t))
                done,
        same,
      )

  -- From a well-formed reply to `cluster slots`, with every connection usable and the slot ranges
  -- disjoint, in any order, the constructor makes a cluster whose `getConnection` returns, for
  -- each key with a slot, the range that holds the slot and the connection that was opened to the
  -- host and port of its element, or throws `NodeSearchException` if no range holds it.
  pub get_connection-construct :
      (root : RedisReply) (elements : Replies) (pairs : Nodes) (e' : E) (w : World E) (key : Text)
      (slot : ℕ)
      → root.value ≡ Reply.array elements
      → Connects elements w.outside pairs e'
      → AreDisjoint pairs
      → slot_by_key key (length key) ≡ some slot
      → (cl : Cluster DefaultContainer) × (w' : World E) × (construct
            (default_container h)
            empty_container
            true
            true
            root
            w
          ≡ (ok cl, w'))
        × ((get_connection (default_container h) key cl w').0 ≡ lookup_slot slot pairs)
        × (w'.outside ≡ e')
  unfolding get_connection serve_slot on_container Container.get_connection
  get_connection-construct root elements pairs e' w key slot shape connects disjoint hashed =
      let (w', built, same) = construct-Connects root elements pairs e' w shape connects in
      let small = slot_by_key-lt key (length key) slot hashed in
      (
        _,
        w',
        built,
        rw hashed (
            search_by_slots_lem slot (insert_all pairs []) (omega arith)
              (insert_all-Separated pairs disjoint)
            ∙ lookup_slot-insert_all slot pairs disjoint),
        same,
      )
