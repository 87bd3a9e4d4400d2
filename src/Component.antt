-- ===== src/Component.antt =====
-- include/spinscale/component.h, include/spinscale/marionette.h and src/component.cpp: a component is
-- bound to its thread, and a puppet component to the application that owns the thread.
use libspinscale.Base.{ℕ}

pub record Component : Type 0 where
  pub thread : ℕ

pub record PuppetComponent : Type 0 where
  pub component : Component
  pub parent : ℕ

pub record MarionetteComponent : Type 0 where
  pub component : Component

abbrev pub construct : ℕ → Component
construct thread = record { thread = thread }

abbrev pub construct_puppet : ℕ → ℕ → PuppetComponent
construct_puppet parent thread = record { component = construct thread; parent = parent }

abbrev pub construct_marionette : ℕ → MarionetteComponent
construct_marionette thread = record { component = construct thread }
