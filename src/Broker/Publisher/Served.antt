-- ===== src/Broker/Publisher/Served.antt =====
-- What `publish` does for one client, where the kernel takes what it is given.
use mqtt_server.Prelude.{
  ℕ, ◌≡◌, ◌≢◌, ◌⊎◌, inl, inr, refl, sym, ap, ◌∙◌, arith, List, [], ◌∷◌, ◌++◌, Option, none, some,
  get_elem?, set, get_elem?-set, get_elem?-set_other, append-nil,
}
use mqtt_server.Mbuf.{Mbuf, contents}
use mqtt_server.Broker.{World, Kernel, Context, Connection, live}
use mqtt_server.Broker.Session.{add_send_msg}
use mqtt_server.Broker.Publisher.{publish_client, update_stat, add_offline, add_online}
use mqtt_server.Broker.Publisher.Laws.{queued, publish_client-offline}
use mqtt_server.Broker.Sender.Whole.{TakesWhole, sent_world, Ready, put-whole}

-- The connection is idle and belongs to the client.
abbrev pub IdleOf : World → (x c : ℕ) → Connection → Type 0
IdleOf w x c conn =
    (live (get_elem? w.connections c) ≡ some conn)
    × (conn.send_msg_queue ≡ [])
    × (conn.client_context ≡ some x)

-- The client has a session, and no connection or an idle one of its own.
abbrev pub Reach : World → ℕ → Type 0
Reach w x =
    (ctx : Context) × (get_elem? w.contexts x ≡ some ctx)
    × ((ctx.mqtt_connection ≡ none)
        ⊎ ((c : ℕ) × (conn : Connection) × (ctx.mqtt_connection ≡ some c) × IdleOf w x c conn))

-- The connection of a client, and what goes to the connections of a list of clients.
abbrev pub connection_of : List Context → ℕ → Option ℕ
connection_of cs x = elim (get_elem? cs x) [ none ↦ none | some ctx ↦ ctx.mqtt_connection ]

abbrev pub one_write : Option ℕ → List ℕ → List (ℕ × List ℕ)
one_write none bytes = []
one_write (some c) bytes = (c, bytes) ∷ []

abbrev pub deliveries : List Context → List ℕ → List ℕ → List (ℕ × List ℕ)
deliveries cs [] bytes = []
deliveries cs (x ∷ xs) bytes = one_write (connection_of cs x) bytes ++ deliveries cs xs bytes

pub record Served (m : Mbuf) (b x : ℕ) (ctx : Context) (w v : World) : Type 0 where
  pub ready : Ready m b v
  pub contexts : v.contexts ≡ set w.contexts x (queued b ctx)
  pub topics : v.topics ≡ w.topics
  pub wire : v.wire ≡ w.wire ++ one_write ctx.mqtt_connection (contents m)
  pub others : (y : ℕ) → x ≢ y → Reach w y → Reach v y

Reach-other :
    (b x y : ℕ) (ctx : Context) (w v : World)
    → v.contexts ≡ set w.contexts x (queued b ctx)
    → x ≢ y
    → ((d : ℕ) (conn : Connection) → IdleOf w y d conn → IdleOf v y d conn)
    → Reach w y
    → Reach v y
Reach-other b x y ctx w v same apart keep (cty, h, inl off) = (
  cty,
  ap (λ (cs : List Context). get_elem? cs y) same
      ∙ get_elem?-set_other w.contexts x y (queued b ctx) apart
      ∙ h,
  inl off,
)
Reach-other b x y ctx w v same apart keep (cty, h, inr (d, conn, on, idle)) = (
  cty,
  ap (λ (cs : List Context). get_elem? cs y) same
      ∙ get_elem?-set_other w.contexts x y (queued b ctx) apart
      ∙ h,
  inr (d, conn, on, keep d conn idle),
)

some-inj : {A : Type 0} (a b : A) → some a ≡ some b → a ≡ b
some-inj a b e = cc

pub publish_client-Served :
    (sys : Kernel) (x b i : ℕ) (m : Mbuf) (w : World)
    → TakesWhole sys
    → Ready m b w
    → (reach : Reach w x)
    → (v : World) × (publish_client sys x b i w ≡ some (tt, v)) × Served m b x (reach.0) w v
unfolding publish_client add_send_msg
publish_client-Served sys x b i m w takes r (ctx, h, inl off) =
    let v : World =
      update_stat i add_offline (record w { contexts = set w.contexts x (queued b ctx) }) in
    (
      v,
      publish_client-offline sys x b i ctx w h off,
      record {
        ready = record {
          here = r.here;
          valid = r.valid;
          some_bytes = r.some_bytes;
          fresh_errno = r.fresh_errno;
        };
        contexts = refl;
        topics = refl;
        wire =
            sym (append-nil w.wire)
            ∙ ap (λ (o : Option ℕ). w.wire ++ one_write o (contents m)) (sym off);
        others = λ y apart reach. Reach-other b x y ctx w v refl apart (λ d conn idle. idle) reach;
      },
    )
publish_client-Served sys x b i m w takes r (ctx, h, inr (c, conn, on, (at, q, mine))) =
    let w1 : World = record w { contexts = set w.contexts x (queued b ctx) } in
    let r1 : Ready m b w1 = record {
      here = r.here;
      valid = r.valid;
      some_bytes = r.some_bytes;
      fresh_errno = r.fresh_errno;
    } in
    let (res, n, went) = put-whole sys c b m conn w1 takes r1 at q in
    let sent = sent_world c n (contents m) conn w1 in
    let v : World = update_stat i add_online sent in
    (
      v,
      ground (arith, h, on, get_elem?-set w.contexts x ctx (queued b ctx) h, went),
      record {
        ready = record {
          here = r.here;
          valid = r.valid;
          some_bytes = r.some_bytes;
          fresh_errno = refl;
        };
        contexts = refl;
        topics = refl;
        wire = ap (λ (o : Option ℕ). w.wire ++ one_write o (contents m)) (sym on);
        others = λ y apart reach.
            Reach-other b x y ctx w v refl apart
              (λ d other (there, empty, its).
                let differ : c ≢ d = λ e.
                  let same : some conn ≡ some other =
                    sym at ∙ ap (λ (k : ℕ). live (get_elem? w.connections k)) e ∙ there in
                  apart (
                    some-inj x y
                      (sym mine ∙ ap Connection.client_context (some-inj conn other same) ∙ its)) in
                (ap live (get_elem?-set_other w.connections c d _ differ) ∙ there, empty, its))
              reach;
      },
    )
