-- ===== src/Tests.antt =====
-- Examples on concrete tables.
mod Data
mod OnQueue
mod OnWorker
mod OnDispatch
mod OnLeveranse
mod OnMirror
mod OnFaktura
mod OnToggl
mod OnBridge
mod OnWebhooks
mod OnLabels
