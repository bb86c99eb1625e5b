-- ===== src/Streamer/Answers.antt =====
-- What the methods of a streamer answer, one after the other.
use up_streamer_rust.Base.{
  String, ◌≡◌, refl, ◌∙◌, inl, inr, true, false, ◌∷◌, arith, Result, ok, err, Bool-cases, ◌==◌,
  nat_equality, string_equality, option_equality, pair_equality, beq_self,
}
use up_streamer_rust.Base.Lists.{contains, erase, erase_head}
use up_streamer_rust.UpRust.{UriOps}
use up_streamer_rust.Routing.SubscriptionDirectory.{SubscriptionDirectory}
use up_streamer_rust.DataPlane.Transport.{transport_identity_key_equality, TransportOps}
use up_streamer_rust.DataPlane.IngressRegistry.{
  IngressRouteRegistry, ingress_route_binding_key_equality, Registration,
}
use up_streamer_rust.DataPlane.EgressPool.{EgressRoutePool, RuntimeOps}
use up_streamer_rust.ControlPlane.RouteTable.{
  Endpoint, RouteTable, RouteKey, route_key_equality, from_endpoints, insert_route,
}
use up_streamer_rust.ControlPlane.RouteTable
use up_streamer_rust.ControlPlane.RouteLifecycle.{
  AddRouteError, RemoveRouteError, Planes, settle, attach_and_register,
}
use up_streamer_rust.ControlPlane.RouteLifecycle
use up_streamer_rust.ControlPlane.RouteLifecycle.{
  already_exists, not_found, failed_to_register_ingress_route,
}
use up_streamer_rust.UpRust.{UCode, fail_with_code}
use up_streamer_rust.Streamer.{
  UStreamer, FormatOps, add_status, delete_status, add_route, delete_route, route_label,
}

-- What a success of `add_route` says of the table before and after.
pub record IsAdded (k : RouteKey) (before after : RouteTable) : Type 0 where
  pub new : contains k before ≡ false
  pub stored : after ≡ k ∷ before

module _ {W : Type 0} where
  route_table-settle :
      (routes : RouteTable) (pool : EgressRoutePool) (in_ep out_ep : Endpoint)
      (x : Registration × (IngressRouteRegistry × W))
      → (settle routes pool in_ep out_ep x).0 ≡ ok tt
      → (settle routes pool in_ep out_ep x).1.route_table ≡ routes
  unfolding settle
  route_table-settle routes pool in_ep out_ep (ok made, (registry, w)) worked = refl
  route_table-settle routes pool in_ep out_ep (err e, (registry, w)) worked = cc

module _ ⦃o : UriOps⦄ ⦃r : RuntimeOps⦄ {W : Type 0} ⦃t : TransportOps W⦄ where
  lifecycle-added :
      (d : SubscriptionDirectory) (s : Planes W) (in_ep out_ep : Endpoint) (label : String)
      → (RouteLifecycle.add_route d s in_ep out_ep label).0 ≡ ok tt
      → (in_ep.authority == out_ep.authority ≡ false)
        × IsAdded
            (from_endpoints in_ep out_ep)
            s.route_table
            (RouteLifecycle.add_route d s in_ep out_ep label).1.route_table
  unfolding RouteLifecycle.add_route insert_route attach_and_register
  lifecycle-added d s in_ep out_ep label worked =
      elim (Bool-cases (in_ep.authority == out_ep.authority)) [
        | inl same ↦ let refused = rw (same, RouteLifecycle.add_route) at worked in cc
        | inr differ ↦ elim (Bool-cases (contains (from_endpoints in_ep out_ep) s.route_table)) [
          | inl old ↦ let refused = rw (differ, old, RouteLifecycle.add_route) at worked in cc
          | inr new ↦ (
            differ,
            record {
              new = new;
              stored =
                  rw (differ, new, RouteLifecycle.add_route)
                    (route_table-settle _ _ in_ep out_ep _
                      (rw (differ, new, RouteLifecycle.add_route) at worked));
            },
          )
        ]
      ]

module _ {k : RouteKey} where
  contains-added : (before after : RouteTable) → IsAdded k before after → contains k after ≡ true
  contains-added before after a = rw a.stored (ground (arith, beq_self k))

  erase-added : (before after : RouteTable) → IsAdded k before after → erase k after ≡ before
  erase-added before after a = rw a.stored (erase_head k before)

add_status_ok :
    ⦃o : UriOps⦄ ⦃f : FormatOps⦄ (in_ep out_ep : Endpoint) (x : Result AddRouteError (Unit {0}))
    → add_status in_ep out_ep x ≡ ok tt
    → x ≡ ok tt
unfolding add_status
add_status_ok in_ep out_ep (ok u) h = refl
add_status_ok in_ep out_ep (err AddRouteError.same_authority) h = cc
add_status_ok in_ep out_ep (err already_exists) h = cc
add_status_ok in_ep out_ep (err (failed_to_register_ingress_route e)) h = cc

module _ {W : Type 0} ⦃t : TransportOps W⦄ (s : Planes W) (in_ep out_ep : Endpoint)
    (differ : in_ep.authority == out_ep.authority ≡ false) where
  add_route_old :
      ⦃o : UriOps⦄ ⦃r : RuntimeOps⦄ (d : SubscriptionDirectory) (label : String)
      → contains (from_endpoints in_ep out_ep) s.route_table ≡ true
      → RouteLifecycle.add_route d s in_ep out_ep label ≡ (err already_exists, s)
  unfolding RouteLifecycle.add_route insert_route
  add_route_old d label old = rw (differ, old, RouteLifecycle.add_route) refl

  remove_route_old :
      contains (from_endpoints in_ep out_ep) s.route_table ≡ true
      → let (answer, s') = RouteLifecycle.remove_route s in_ep out_ep in
        (answer ≡ ok tt) × (s'.route_table ≡ erase (from_endpoints in_ep out_ep) s.route_table)
  unfolding RouteLifecycle.remove_route RouteTable.remove_route
  remove_route_old old = rw (differ, old, RouteLifecycle.remove_route) (refl, refl)

  remove_route_missing :
      contains (from_endpoints in_ep out_ep) s.route_table ≡ false
      → (RouteLifecycle.remove_route s in_ep out_ep).0 ≡ err not_found
  unfolding RouteLifecycle.remove_route RouteTable.remove_route
  remove_route_missing new = rw (differ, new, RouteLifecycle.remove_route) refl

module _ ⦃f : FormatOps⦄ {W : Type 0} ⦃t : TransportOps W⦄ (s : UStreamer W)
    (in_ep out_ep : Endpoint) (differ : in_ep.authority == out_ep.authority ≡ false) where
  add_route-there :
      ⦃o : UriOps⦄ ⦃r : RuntimeOps⦄
      → contains (from_endpoints in_ep out_ep) s.planes.route_table ≡ true
      → add_route s in_ep out_ep ≡ (err (fail_with_code UCode.already_exists "already exists"), s)
  unfolding add_route add_status
  add_route-there old =
      rw
        (add_route_old s.planes in_ep out_ep differ s.subscription_directory
          (route_label in_ep out_ep) old)
        refl

  delete_route-there :
      contains (from_endpoints in_ep out_ep) s.planes.route_table ≡ true
      → let (answer, s') = delete_route s in_ep out_ep in
        (answer ≡ ok tt)
        × (s'.planes.route_table ≡ erase (from_endpoints in_ep out_ep) s.planes.route_table)
  unfolding delete_route delete_status
  delete_route-there old =
      let (worked, erased) = remove_route_old s.planes in_ep out_ep differ old in
      (rw worked refl, erased)

  delete_route-missing :
      contains (from_endpoints in_ep out_ep) s.planes.route_table ≡ false
      → (delete_route s in_ep out_ep).0 ≡ err (fail_with_code UCode.not_found "not found")
  unfolding delete_route delete_status
  delete_route-missing new = rw (remove_route_missing s.planes in_ep out_ep differ new) refl

module _ ⦃o : UriOps⦄ ⦃f : FormatOps⦄ ⦃r : RuntimeOps⦄ {W : Type 0} ⦃t : TransportOps W⦄ where
  pub added :
      (s : UStreamer W) (in_ep out_ep : Endpoint)
      → (add_route s in_ep out_ep).0 ≡ ok tt
      → (in_ep.authority == out_ep.authority ≡ false)
        × IsAdded
            (from_endpoints in_ep out_ep)
            s.planes.route_table
            (add_route s in_ep out_ep).1.planes.route_table
  unfolding add_route
  added s in_ep out_ep worked =
      lifecycle-added s.subscription_directory s.planes in_ep out_ep (route_label in_ep out_ep)
        (add_status_ok in_ep out_ep _ worked)

  -- After a route was added with success, adding it again is answered with ALREADY_EXISTS and changes
  -- nothing.
  pub add_route-again :
      (s : UStreamer W) (in_ep out_ep : Endpoint)
      → (add_route s in_ep out_ep).0 ≡ ok tt
      → add_route (add_route s in_ep out_ep).1 in_ep out_ep
        ≡ (err (fail_with_code UCode.already_exists "already exists"), (add_route s in_ep out_ep).1)
  add_route-again s in_ep out_ep worked =
      let (differ, a) = added s in_ep out_ep worked in
      add_route-there (add_route s in_ep out_ep).1 in_ep out_ep differ (contains-added _ _ a)

  -- After a route was added with success, deleting it succeeds and gives back the route table as it was
  -- before, and deleting it once more is answered with NOT_FOUND.
  pub delete_route-add_route :
      (s : UStreamer W) (in_ep out_ep : Endpoint)
      → (add_route s in_ep out_ep).0 ≡ ok tt
      → let (deleted, s') = delete_route (add_route s in_ep out_ep).1 in_ep out_ep in
        (deleted ≡ ok tt)
        × (s'.planes.route_table ≡ s.planes.route_table)
        × ((delete_route s' in_ep out_ep).0 ≡ err (fail_with_code UCode.not_found "not found"))
  delete_route-add_route s in_ep out_ep worked =
      let (differ, a) = added s in_ep out_ep worked in
      let (deleted, erased) =
        delete_route-there (add_route s in_ep out_ep).1 in_ep out_ep differ
          (contains-added _ _ a) in
      let back = erased ∙ erase-added _ _ a in
      (
        deleted,
        back,
        delete_route-missing (delete_route (add_route s in_ep out_ep).1 in_ep out_ep).1 in_ep out_ep
            differ (rw back a.new),
      )
