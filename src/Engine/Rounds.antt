-- ===== src/Engine/Rounds.antt =====
-- The events of a round, on a sound engine.
use nodescan.Prelude.{
  ℕ, ◌≡◌, refl, ap, ◌∙◌, Bool, some, List, [], ◌∷◌, ret, ◌>>=◌, arith, Bool-cases, inl, inr,
}
use nodescan.Prelude.Maps
use nodescan.Prelude.Maps.{Ascends, assign-Ascends}
use nodescan.Lvl4.{Lvl4Sm}
use nodescan.Lvl4.Process.{process_lvl4_data}
use nodescan.Target.{PortApi, Target}
use nodescan.Engine.{Engine, Config, opened, host_sm, lvl4_sm}
use nodescan.Engine.Scan.{Event, handle_event, process_events}
use nodescan.Engine.Accounts.{Serves}
use nodescan.Engine.Tracking.{IsSound}
use nodescan.Engine.Handling.{process_connecting_ready-IsSound, process_connected_ready-IsSound}

module _ {P S H F W : Type 0} ⦃api : PortApi P⦄ (c : Config P S H F W) (Good : S → Type 0)
    (serves : Serves c Good) where
  module _ (uninit : ℕ → ℕ) (fuel now : ℕ) where
    -- An event that epoll can give for an engine: its socket is one of the engine's. A new socket that
    -- a reconnection opens has the number of the one that it closes, and the handling of the bytes
    -- that wait returns.
    pub record Fits (ev : Event) (e : Engine P S H F W) : Type 0 where
      pub errno : ℕ
      pub target : Target P
      pub handled : Bool × (W × H) × Lvl4Sm F
      pub has : Maps.find ev.fd e.sockets_targets ≡ some target
      pub answer : ev.answer ≡ opened ev.fd errno
      pub reads :
          process_lvl4_data c.act uninit fuel target ev.navail ev.got
            (e.world, (host_sm c target.ipv4 e).0)
            (lvl4_sm ev.fd now e).0
          ≡ ret handled

    pub handle_event-IsSound :
        (ev : Event) (e : Engine P S H F W)
        → IsSound c Good e
        → Fits ev e
        → (e' : Engine P S H F W) × (handle_event c uninit fuel now ev e ≡ ret e')
          × IsSound c Good e'
    handle_event-IsSound ev e h fits =
        let (go, x, sm') = fits.handled in
        let (e1, made, h1) =
          process_connecting_ready-IsSound c Good serves ev.fd now e fits.target h fits.has
            ev.so_error in
        let (e2, read, h2) =
          process_connected_ready-IsSound c Good serves ev.fd now e fits.target h fits.has uninit
            fuel ev.navail fits.errno ev.got {go = go} {x = x} {sm' = sm'} fits.reads in
        elim (Bool-cases ev.out_ready) [
          | inl out ↦ (e1, ground (arith, out, made), h1)
          | inr idle ↦ elim (Bool-cases ev.in_ready) [
            | inl arrived ↦ (e2, ground (arith, idle, arrived, fits.answer, read), h2)
            | inr nothing ↦ (e, ground (arith, idle, nothing), h)
          ]
        ]

    -- Each event fits the engine that the events before it leave.
    abbrev pub AllFit : List Event → Engine P S H F W → Type 0
    AllFit [] e = Unit {0}
    AllFit (ev ∷ evs) e =
        Fits ev e
        × ((e' : Engine P S H F W) → handle_event c uninit fuel now ev e ≡ ret e' → AllFit evs e')

    pub process_events-IsSound :
        (evs : List Event) (e : Engine P S H F W)
        → IsSound c Good e
        → AllFit evs e
        → (e' : Engine P S H F W) × (process_events c uninit fuel now evs e ≡ ret e')
          × IsSound c Good e'
    unfolding process_events
    process_events-IsSound [] e h fit = (e, refl, h)
    process_events-IsSound (ev ∷ evs) e h fit =
        let (e1, done, h1) = handle_event-IsSound ev e h fit.0 in
        let (e2, rest, h2) = process_events-IsSound evs e1 h1 (fit.1 e1 done) in
        (e2, ap (λ m. m >>= process_events c uninit fuel now evs) done ∙ rest, h2)
