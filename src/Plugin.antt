-- ===== src/Plugin.antt =====
-- `plugins_call_…` of src/plugin.c: the plugins of a slot, one after the other, until one of them does
-- not go on. `S` is what a plugin works on; a slot that is not there is an empty list.
use lighttpd_autothumb.Uri.{
  HandlerResult, unset, go_on, finished, comeback, wait_for_event, error, wait_for_fd,
}
use lighttpd_autothumb.Base.{List, [], ◌∷◌, All}

module _ {S : Type 0} where
  -- The switch over what a plugin returns; `rest` is what the plugins behind it do.
  unfoldable pub after_plugin : (S → HandlerResult × S) → HandlerResult → S → HandlerResult × S
  after_plugin rest unset s = (error, s)
  after_plugin rest go_on s = rest s
  after_plugin rest finished s = (finished, s)
  after_plugin rest comeback s = (comeback, s)
  after_plugin rest wait_for_event s = (wait_for_event, s)
  after_plugin rest wait_for_fd s = (wait_for_fd, s)
  after_plugin rest error s = (error, s)

  unfoldable pub plugins_call : List (S → HandlerResult × S) → S → HandlerResult × S
  plugins_call [] s = (go_on, s)
  plugins_call (p ∷ ps) s = let (r, s') = p s in after_plugin (plugins_call ps) r s'

  after-kept :
      (P : S → Type 0) (rest : S → HandlerResult × S) (r : HandlerResult) (s : S)
      → ((t : S) → P t → P (rest t).1)
      → P s
      → P (after_plugin rest r s).1
  unfolding after_plugin
  after-kept P rest unset s k h = h
  after-kept P rest go_on s k h = k s h
  after-kept P rest finished s k h = h
  after-kept P rest comeback s k h = h
  after-kept P rest wait_for_event s k h = h
  after-kept P rest wait_for_fd s k h = h
  after-kept P rest error s k h = h

  -- What each plugin of a slot keeps is kept by the slot, whichever of them ends the request.
  pub plugins_call-kept :
      (P : S → Type 0) (ps : List (S → HandlerResult × S)) (s : S)
      → All (λ (p : S → HandlerResult × S). (t : S) → P t → P (p t).1) ps
      → P s
      → P (plugins_call ps s).1
  unfolding plugins_call
  plugins_call-kept P [] s a h = h
  plugins_call-kept P (p ∷ ps) s a h =
      after-kept P (plugins_call ps) (p s).0 (p s).1 (λ t. plugins_call-kept P ps t a.1) (a.0 s h)
