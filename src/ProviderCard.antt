-- ===== src/ProviderCard.antt =====
-- frontend/src/components/settings/ProviderCard.tsx: one provider's card on the settings page.
mod State
mod Actions
mod Discovery
mod Adding
pub mod Previewed
pub mod Added
pub use State.{Note, CardState, report, report_error}
unfoldable pub use State.{initial_card, reset_card}
unfoldable pub use Actions.{
  make_default, finish_default, start_remove_provider, finish_remove_provider, start_remove_model,
  finish_remove_model, start_test, finish_test, submit_model, finish_model,
}
unfoldable pub use Discovery.{start_discover, take_candidates, finish_discover, pick}
pub use Discovery.{CardCall}
unfoldable pub use Discovery.{card_call, run_card}
pub use Adding.{Reply, is_added, marked_preview}
unfoldable pub use Adding.{
  chosen_of, start_picked, added_models, failures, failure_of, joined, mark_added, set_size,
  finish_picked,
}
