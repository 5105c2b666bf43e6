-- ===== src/Drawer.antt =====
-- frontend/src/lib/drawer.ts: everything that the narrow layout derives from one open drawer.
use langgraph_agent.Base.{
  Bool, false, not, ◌&&◌, Option, none, some, is_some, ◌≡◌, arith, if◌then◌else◌, ◌||◌,
}

pub data DrawerSide : Type 0 where
  left right : DrawerSide

pub record DrawerViewInput : Type 0 where
  pub left_narrow : Bool
  pub right_narrow : Bool
  pub opened : Option DrawerSide
  pub trace_open : Bool

pub record DrawerView : Type 0 where
  pub overlay_visible : Bool
  pub background_inert : Bool
  pub close_on_widen : Bool
  pub close_for_trace : Bool
  pub justify : Option DrawerSide

abbrev pub narrow_side : Bool → Bool → Option DrawerSide → Bool
narrow_side l r none = false
narrow_side l r (some left) = l
narrow_side l r (some right) = r

unfoldable pub drawer_view : DrawerViewInput → DrawerView
drawer_view input =
    let open_narrow = narrow_side input.left_narrow input.right_narrow input.opened in
    let justify = if open_narrow && not input.trace_open then input.opened else none in
    record {
      overlay_visible = is_some justify;
      background_inert = is_some justify;
      close_on_widen = is_some input.opened && not open_narrow;
      close_for_trace = input.trace_open && is_some input.opened;
      justify = justify;
    }

-- What the view does on a close: the entry is emptied.
unfoldable pub after_close : DrawerViewInput → DrawerViewInput
unfolding drawer_view
after_close input =
    if (drawer_view input).close_on_widen || (drawer_view input).close_for_trace
    then record input { opened = none }
    else input

-- An open drawer is either shown, with the scrim over an inert background, or told to close, and never
-- both; with no drawer open neither happens.
pub drawer_view_lem :
    (input : DrawerViewInput)
    → ((drawer_view input).overlay_visible ≡ (drawer_view input).background_inert)
      × (is_some (drawer_view input).justify ≡ (drawer_view input).overlay_visible)
      × (((drawer_view input).close_on_widen || (drawer_view input).close_for_trace)
          ≡ (is_some input.opened && not (drawer_view input).overlay_visible))
unfolding drawer_view
drawer_view_lem input = ground arith
