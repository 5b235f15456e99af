-- ===== src/MlInference.antt =====
-- services/ml-inference: features, the loaded model and the detection of anomalies.
pub mod FeatureExtractor
pub mod Windows
pub mod Engine
pub mod AnomalyDetector
pub mod Alerts
mod Tests
