-- ===== src/Input/Defs.antt =====
-- The state of moonlight/src/input.rs. A `BTreeSet` is the ascending list that it iterates over. A
-- handler is one step of the state and the connection. The mutex is held for less: `send_key` and
-- `send_mouse_button` call the connection before they take it, and `release_all` after it has let it
-- go. The interleavings of two handlers there are left out.
use moonlight_scarlet.Prelude.{
  ℕ, Bool, false, ◌||◌, none, List, [], ◌∷◌, if◌then◌else◌, ltb, ◌==◌, Result,
}
use moonlight_scarlet.Prelude.Int.{ℤ}
use moonlight_scarlet.Sys.Floats.{Float32}
use moonlight_scarlet.Sys.Types.{InputError, InputAction, MouseButton, KeyboardModifiers}
use moonlight_scarlet.Sys.Control.{
  Core, Link, send_keyboard, send_mouse_button, send_mouse_move, send_horizontal_scroll,
  send_vertical_scroll,
}
use moonlight_scarlet.Touch.Defs.{TouchSink, control_sink, TouchInput}

pub data StreamShortcut : Type 0 where
  toggle_capture disconnect toggle_fullscreen : StreamShortcut

pub data ShortcutDispatch : Type 0 where
  not_shortcut consumed : ShortcutDispatch
  command : StreamShortcut → ShortcutDispatch

-- `BTreeSet<u16>`
abbrev pub contains : ℕ → List ℕ → Bool
contains k [] = false
contains k (x ∷ xs) = k == x || contains k xs

unfoldable pub insert : ℕ → List ℕ → List ℕ
insert k [] = k ∷ []
insert k (x ∷ xs) =
    let rest = insert k xs in if ltb k x then k ∷ x ∷ xs else if k == x then x ∷ xs else x ∷ rest

unfoldable pub remove : ℕ → List ℕ → List ℕ
remove k [] = []
remove k (x ∷ xs) = let rest = remove k xs in if k == x then xs else x ∷ rest

pub record PressedInput (F : Type 0) : Type 0 where
  pub touches : TouchInput F
  pub keys : List ℕ
  pub mouse_buttons : ℕ
  pub suppressed_mouse_buttons : ℕ
  pub suppressed_shortcut_keys : List ℕ

-- `PressedInput::default`
abbrev pub nothing_pressed : {F : Type 0} → PressedInput F
nothing_pressed = record {
  touches = record { native = none; contacts = [] };
  keys = [];
  mouse_buttons = 0;
  suppressed_mouse_buttons = 0;
  suppressed_shortcut_keys = [];
}

-- What the handlers call of a `ConnectionControl`.
pub record Control (F W : Type 0) : Type 0 where
  pub touch_sink : TouchSink F W
  pub keyboard : ℕ → InputAction → KeyboardModifiers → W → Result InputError (Unit {0}) × W
  pub mouse_button : MouseButton → InputAction → W → Result InputError (Unit {0}) × W
  pub mouse_move : ℤ → ℤ → W → Result InputError (Unit {0}) × W
  pub horizontal_scroll : ℤ → W → Result InputError (Unit {0}) × W
  pub vertical_scroll : ℤ → W → Result InputError (Unit {0}) × W

unfoldable pub control_of :
    (f : Float32) {C : Type 0} → Core f.Carrier C → Control f.Carrier (Link C)
control_of f c = record {
  touch_sink = control_sink f c;
  keyboard = send_keyboard f c;
  mouse_button = send_mouse_button f c;
  mouse_move = send_mouse_move f c;
  horizontal_scroll = send_horizontal_scroll f c;
  vertical_scroll = send_vertical_scroll f c;
}
