-- ===== src/Stream/Hub.antt =====
-- streamhub.go: the hub that pulls each camera's stream once, and only while someone watches.
--
-- The hub's mutex makes each operation atomic. What Go's runtime keeps for a camera stands in its
-- record as well: the release functions that were handed out and not called yet, the timers that run,
-- the timer callbacks that wait for the mutex, and the pulls whose context is not cancelled. A stopped
-- timer may have fired already; then its callback still comes. The RTSP and HLS libraries are not
-- modelled.
pub mod Sound
pub mod Life
mod Examples
use mathlib.Core.List.{Memᴰ}
use camonitor.Prelude.{
  ℕ, ◌+◌, ◌-◌, ◌<◌, ◌≡◌, Bool, true, false, not, ◌&&◌, ◌||◌, List, [], ◌∷◌, Option, none, some, ltb,
  ◌==◌, if◌then◌else◌, Text, text_eq, filter_by,
}

pub record StreamCam : Type 0 where
  pub url : Text
  pub viewers : ℕ
  pub idle_timer : Option ℕ
  pub run : Option ℕ
  pub releases : ℕ
  pub armed : List ℕ
  pub waiting : ℕ
  pub live : List ℕ
  pub next_id : ℕ

pub record StreamHub : Type 0 where
  pub cams : Text → Option StreamCam
  pub closed : Bool

unfoldable pub set_cam : Text → StreamCam → StreamHub → StreamHub
set_cam name c h = record h { cams = λ k. if text_eq name k then some c else h.cams k }

abbrev new_cam : Text → StreamCam
new_cam url = record {
  url = url;
  viewers = 0;
  idle_timer = none;
  run = none;
  releases = 0;
  armed = [];
  waiting = 0;
  live = [];
  next_id = 0;
}

unfoldable pub new_stream_hub : (Text → Option Text) → StreamHub
new_stream_hub sources = record {
  cams = λ k. elim (sources k) [ none ↦ none | some url ↦ some (new_cam url) ];
  closed = false;
}

-- `Stop`, for the timers and for the contexts.
unfoldable pub stop : Option ℕ → List ℕ → List ℕ
stop none xs = xs
stop (some i) xs = filter_by (λ x. not (x == i)) xs

unfoldable pub start_locked : StreamCam → StreamCam
start_locked c = record c {
  run = some c.next_id;
  live = c.next_id ∷ c.live;
  next_id = c.next_id + 1;
}

abbrev started : StreamCam → StreamCam
started c = elim (c.run) [ none ↦ start_locked c | some r ↦ c ]

unfoldable pub acquire_cam : StreamCam → StreamCam
unfolding start_locked stop
acquire_cam c = started (record c {
  viewers = c.viewers + 1;
  releases = c.releases + 1;
  idle_timer = none;
  armed = stop c.idle_timer c.armed;
})

-- Whether a release function was given, and the hub.
unfoldable pub acquire : Text → StreamHub → Bool × StreamHub
unfolding acquire_cam set_cam
acquire name h = elim (h.cams name) [
  | none ↦ (false, h)
  | some c ↦ if h.closed then (false, h) else (true, set_cam name (acquire_cam c) h)
]

unfoldable pub release_cam : Bool → StreamCam → StreamCam
release_cam closed c =
    if ltb 0 (c.viewers - 1) || closed
    then record c { viewers = c.viewers - 1; releases = c.releases - 1 }
    else record c {
      viewers = c.viewers - 1;
      releases = c.releases - 1;
      idle_timer = some c.next_id;
      armed = c.next_id ∷ c.armed;
      next_id = c.next_id + 1;
    }

-- The runtime: a timer that runs goes off, and its callback waits for the mutex.
unfoldable pub expire_cam : ℕ → StreamCam → StreamCam
unfolding stop
expire_cam i c = record c { armed = stop (some i) c.armed; waiting = c.waiting + 1 }

abbrev stop_run : StreamCam → StreamCam
stop_run c = record c { run = none; live = stop c.run c.live }

-- The callback of the idle timer.
unfoldable pub idle_cam : StreamCam → StreamCam
unfolding stop
idle_cam c =
    let d = record c { waiting = c.waiting - 1 } in if c.viewers == 0 then stop_run d else d

unfoldable pub close_cam : StreamCam → StreamCam
unfolding stop
close_cam c = stop_run (record c { armed = stop c.idle_timer c.armed })

-- `Handler`: it starts the pull and arms the timer; the requests to the handler it returns are the
-- viewers.
unfoldable pub handler : Text → StreamHub → Bool × StreamHub
unfolding acquire release_cam set_cam
handler name h =
    let (ok, h') = acquire name h in
    if ok
    then elim (h'.cams name) [
      | none ↦ (true, h')
      | some c ↦ (true, set_cam name (release_cam h'.closed c) h')
    ]
    else (false, h')

unfoldable pub close : StreamHub → StreamHub
unfolding close_cam
close h = record {
  cams = λ k. elim (h.cams k) [ none ↦ none | some c ↦ some (close_cam c) ];
  closed = true;
}

-- What can happen to the hub next. A release function that was called does nothing when it is called
-- again, by its `sync.Once`, so each is called once here.
pub data Step : StreamHub → StreamHub → Type 0 where
  acquires : {h : StreamHub} (name : Text) → Step h (acquire name h).1
  releases :
      {h : StreamHub} (name : Text) (c : StreamCam)
      → h.cams name ≡ some c
      → 0 < c.releases
      → Step h (set_cam name (release_cam h.closed c) h)
  expires :
      {h : StreamHub} (name : Text) (c : StreamCam) (i : ℕ)
      → h.cams name ≡ some c
      → Memᴰ i c.armed
      → Step h (set_cam name (expire_cam i c) h)
  idles :
      {h : StreamHub} (name : Text) (c : StreamCam)
      → h.cams name ≡ some c
      → 0 < c.waiting
      → Step h (set_cam name (idle_cam c) h)
  closes : {h : StreamHub} → Step h (close h)

pub data Steps : StreamHub → StreamHub → Type 0 where
  stay : {h : StreamHub} → Steps h h
  more : {h h' h'' : StreamHub} → Steps h h' → Step h' h'' → Steps h h''
