-- ===== src/Stream/Hub/Examples.antt =====
-- Tests of the stream hub, and its theorems at concrete runs.

use camonitor.Prelude.{
  ◌≡◌, refl, false, [], ◌∷◌, Option, none, some, arith, if◌then◌else◌, Text, codes, text_eq,
  filter_by,
}
use camonitor.Stream.Hub.{
  StreamCam, StreamHub, set_cam, new_cam, new_stream_hub, stop, start_locked, acquire_cam, acquire,
  release_cam, expire_cam, idle_cam, close_cam, close, handler, acquires, releases, Steps, stay,
  more,
}
use camonitor.Stream.Hub.Life.{hub-IsSound, closed_for_good}
use camonitor.Stream.Hub.Sound.{IsSound}

abbrev sources : Text → Option Text
sources name = if text_eq name (codes "gate") then some (codes "rtsp://nvr") else none

hub_runs : Unit {0}
unfolding text_eq filter_by new_stream_hub acquire acquire_cam start_locked set_cam stop release_cam
    expire_cam idle_cam close_cam close handler
hub_runs = tt

-- One viewer comes.
watched : StreamHub
unfolding hub_runs
watched = (acquire (codes "gate") (new_stream_hub sources)).1

cam_of : StreamHub → Option StreamCam
cam_of h = h.cams (codes "gate")

-- The viewer leaves, and the timer runs.
left : StreamCam
unfolding hub_runs
left = release_cam false (acquire_cam (new_cam (codes "rtsp://nvr")))

left_alone : StreamHub
unfolding hub_runs left
left_alone = set_cam (codes "gate") left watched

pulled_until_idle :
    (left.run ≡ some 0) × (left.armed ≡ 1 ∷ []) × ((idle_cam (expire_cam 1 left)).run ≡ none)
unfolding hub_runs left
pulled_until_idle = (refl, refl, refl)

refuses_strangers : (handler (codes "garden") watched).0 ≡ false
unfolding hub_runs watched
refuses_strangers = refl

to_left : Steps (new_stream_hub sources) left_alone
unfolding hub_runs watched left left_alone
to_left =
    more (more stay (acquires (codes "gate")))
      (releases (codes "gate") (acquire_cam (new_cam (codes "rtsp://nvr"))) refl (omega arith))

left_there : left_alone.cams (codes "gate") ≡ some left
unfolding hub_runs left_alone
left_there = refl

hub-IsSound_example : IsSound left_alone.closed left
hub-IsSound_example = hub-IsSound sources (codes "gate") left to_left left_there

after_close : Steps (close left_alone) (acquire (codes "gate") (close left_alone)).1
after_close = more stay (acquires (codes "gate"))

closed_for_good_example :
    let h = (acquire (codes "gate") (close left_alone)).1 in
    (acquire (codes "gate") h ≡ (false, h))
    × ((c : StreamCam) → h.cams (codes "gate") ≡ some c → (c.run ≡ none) × (c.live ≡ []))
closed_for_good_example = closed_for_good sources (codes "gate") to_left after_close
